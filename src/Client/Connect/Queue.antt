-- ===== src/Client/Connect/Queue.antt =====
-- What connecting, and connecting again, makes of the client's queue.
use go_xmpp.Client.{Client, tell, write_data}
use go_xmpp.StreamManager.{resuming}
use go_xmpp.Client.Connect.{
  after_connect, after_setup, connect_client, connect_session, dialed, disconnect, first_presence,
  post_session_setup, resume_client, start_runtime, take_made, then_hook,
}
use go_xmpp.Client.Unacked.{un_acked_of}
use go_xmpp.Session.{Codec, no_sm_state}
use go_xmpp.Session.Queue.{IsRenewed, equal-IsRenewed}
use go_xmpp.Session.Negotiate.{Made, new_session, session_of}
use go_xmpp.Session.Negotiate.Queue.{new_session-IsRenewed, queue_made}
use go_xmpp.Transport.{Transport, connect}
use go_xmpp.Result.{GoError, Result, err, ok}
use go_xmpp.Text.{GoString}
use go_xmpp.EventManager.{notify, state_event}
use mathlib.Core.Path.{subst}
use go_xmpp.Prelude.{Option, Option-cases, arith, inl, inr, none, refl, some, ◌≡◌}

module _ {H : Type 0} where
  pub disconnect-session : (cl : Client H) → (disconnect cl).session ≡ cl.session
  unfolding disconnect
  disconnect-session cl = ground arith

  take_made-queue :
      (id : GoString) (m : Made) (cl : Client H) → un_acked_of (take_made id m cl).1 ≡ queue_made m
  unfolding take_made tell notify
  take_made-queue id m cl =
      let cl' : Client H = record cl {
        session = m.session;
        transport = some m.transport;
        config = m.config;
      } in
      elim (Option-cases m.error) [
        | inr (e, q) ↦ ground (arith, q, disconnect-session cl')
        | inl q ↦ elim (Option-cases m.session) [
          | inl r ↦ ground (arith, q, r)
          | inr (s, r) ↦ ground (arith, q, r)
        ]
      ]

  first_presence-session : (cl : Client H) → (first_presence cl).1.session ≡ cl.session
  unfolding first_presence write_data
  first_presence-session cl = ground arith

  post_session_setup-session : (cl : Client H) → (post_session_setup cl).1.session ≡ cl.session
  unfolding post_session_setup then_hook
  post_session_setup-session cl = ground (arith, first_presence-session cl)

  after_connect-session :
      (r : Option GoError × Client H) → (after_connect r).1.session ≡ r.1.session
  unfolding after_connect after_setup start_runtime
  after_connect-session (some e, cl) = refl
  after_connect-session (none, cl) = ground (arith, post_session_setup-session cl)

-- A client without a session starts from one without a queue.
session_of-queue :
    {H : Type 0} (cl : Client H)
    → (session_of cl.session no_sm_state).sm_state.un_ack_queue ≡ un_acked_of cl
unfolding session_of
session_of-queue cl = elim (Option-cases cl.session) [
  | inl q ↦ ground (arith, q)
  | inr (s, q) ↦ ground (arith, q)
]

module _ {H : Type 0} (c : Codec) where
  dialed-IsRenewed :
      (r : Result GoString) (t : Transport) (cl : Client H)
      → IsRenewed (un_acked_of cl) (un_acked_of (dialed c (r, t) cl).1)
  unfolding dialed
  dialed-IsRenewed (err e) t cl = inl refl
  dialed-IsRenewed (ok id) t cl =
      let m = new_session c cl.session no_sm_state t cl.config in
      equal-IsRenewed (take_made-queue id m cl) (
        subst (λ q. IsRenewed q (queue_made m)) (session_of-queue cl)
          (new_session-IsRenewed c cl.session no_sm_state t cl.config))

  connect_session-IsRenewed :
      (cl : Client H) → IsRenewed (un_acked_of cl) (un_acked_of (connect_session c cl).1)
  unfolding connect_session
  connect_session-IsRenewed cl = elim (Option-cases cl.transport) [
    | inl q ↦ inl (ground (arith, q))
    | inr (t, q) ↦
        equal-IsRenewed (ground (arith, q)) (dialed-IsRenewed (connect t).0 (connect t).1 cl)
  ]

  after_connect-IsRenewed :
      (cl : Client H)
      → IsRenewed (un_acked_of cl) (un_acked_of (after_connect (connect_session c cl)).1)
  after_connect-IsRenewed cl =
      equal-IsRenewed (ground (arith, after_connect-session (connect_session c cl)))
        (connect_session-IsRenewed cl)

  -- Connect leaves the client the queue that it had, or that queue less what an acknowledgement of some
  -- number of stanzas covers, or no queue, or a new one; so does Resume.
  pub connect_client-IsRenewed :
      (cl : Client H)
      → IsRenewed (un_acked_of cl) (un_acked_of (connect_client c cl).1)
        × IsRenewed (un_acked_of cl) (un_acked_of (resume_client c cl).1)
  unfolding connect_client resume_client tell notify
  connect_client-IsRenewed cl =
      (after_connect-IsRenewed cl, after_connect-IsRenewed (tell (state_event resuming) cl))
