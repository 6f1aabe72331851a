-- ===== src/Client/Connect/Laws.antt =====
-- What a connection, and a connection made again, leave.
use go_xmpp.Transport.{Transport, connect}
use go_xmpp.Session.{Codec, Negotiation, Session, no_sm_state}
use go_xmpp.Session.Negotiate.{Made, new_session, tls_step}
use go_xmpp.Client.{Client, tell}
use go_xmpp.Client.Connect.{connect_session, post_session_setup, take_made}
use go_xmpp.Prelude.{Option-cases, arith, false, inl, inr, none, some, true, ◌≡◌}
use go_xmpp.Transport.Io.Keeps.{connect-secure}
use go_xmpp.Result.{Result-cases}
use go_xmpp.Session.Negotiate.Laws.{new_session_secure}
use go_xmpp.Text.{GoString}

-- A transport that was secured once counts as secured when it is connected again, although the new
-- connection is a new, unencrypted one: the session that is made on it skips STARTTLS.
pub reconnect_skips_tls :
    (n : Negotiation)
    → n.transport.is_secure ≡ true
    → tls_step (record n { transport = (connect n.transport).1 })
      ≡ record n { transport = (connect n.transport).1 }
unfolding tls_step
reconnect_skips_tls n e = ground (arith, connect-secure n.transport, e)

module _ {H : Type 0} (c : Codec) where
  made_transport :
      (id : GoString) (m : Made) (cl : Client H)
      → (take_made id m cl).0 ≡ none
      → (take_made id m cl).1.transport ≡ some m.transport
  unfolding take_made tell
  made_transport id m cl e = elim (Option-cases m.error) [
    | inr (er, q) ↦ absurd (ground (arith, q, e))
    | inl q ↦ elim (Option-cases m.session) [
      | inl r ↦ absurd (ground (arith, q, r, e))
      | inr (s, r) ↦ ground (arith, q, r)
    ]
  ]

  -- Where the configuration does not allow clear text, a connection whose session is established
  -- without an error, by Connect or by Resume, is on a transport that is marked as secured.
  pub connect_session_secure :
      (cl : Client H)
      → cl.config.insecure ≡ false
      → (connect_session c cl).0 ≡ none
      → (t : Transport) × ((connect_session c cl).1.transport ≡ some t) × (t.is_secure ≡ true)
  unfolding connect_session
  connect_session_secure cl h e = elim (Option-cases cl.transport) [
    | inl q ↦ absurd (ground (arith, q, e))
    | inr (t, q) ↦ elim (Result-cases (connect t).0) [
      | inr (er, r) ↦ absurd (ground (arith, q, r, e))
      | inl (id, r) ↦
          let m = new_session c cl.session no_sm_state (connect t).1 cl.config in
          elim (new_session_secure c cl.session no_sm_state (connect t).1 cl.config h) [
            | inr (none_made, (er, k, perm), w) ↦ absurd (ground (arith, q, r, k, e))
            | inl secure ↦ (
              m.transport,
              ground (arith, q, r, made_transport id m cl (ground (arith, q, r, e))),
              secure,
            )
          ]
    ]
  ]

module _ {H : Type 0} where
  -- The presence and the hook of a first connection are for sessions that were not resumed; a resumed
  -- session only runs its own hook, and nothing is written.
  pub post_session_setup_resumed :
      (cl : Client H) (s : Session)
      → cl.session ≡ some s
      → s.resumed ≡ true
      → (post_session_setup cl).1 ≡ cl
  unfolding post_session_setup
  post_session_setup_resumed cl s e r = ground (arith, e, r)
