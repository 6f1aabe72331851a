-- ===== src/Session/Bind/Keeps.antt =====
-- Binding does not change whether the connection is secured, or whether the configuration allows clear
-- text.
use go_xmpp.Text.{GoString}
use go_xmpp.Transport.Io.{Io}
use go_xmpp.Transport.Io.Keeps.{KeepsSecure, bind-KeepsSecure, read-secure, write_some-KeepsSecure}
use go_xmpp.Stanza.Packet.{Iq, IqPayload}
use go_xmpp.Stanza.Iq.{IqError, new_iq}
use go_xmpp.Result.{Result-cases}
use go_xmpp.Session.{Codec, Negotiation, Session}
use go_xmpp.Session.Keeps.{Keeps, Kept, unless_failed-Keeps}
use go_xmpp.Session.Bind.{
  after, bind_context, bind_exchange, bind_resource, open_session, packet_id, read_iq, request,
  rfc_3921_session, same_session, send_made, session_context, session_exchange, set_bind_jid,
  set_request,
}
use go_xmpp.Prelude.{arith, inl, inr, none, refl, ◌⊎◌}

after-Kept :
    {A : Type 0} (f : A → Session → Session) (m : Io A) (n : Negotiation)
    → KeepsSecure m
    → Kept n.transport n.config (after f (m n.transport) n)
unfolding after
after-Kept f m n keeps = elim (Result-cases (m n.transport).0) [
  | inl (a, q) ↦ ground (arith, q, keeps n.transport)
  | inr (e, q) ↦ ground (arith, q, keeps n.transport)
]

module _ (c : Codec) where
  send_made-KeepsSecure :
      (z : GoString) (payload : IqPayload) (q : Iq ⊎ IqError)
      → KeepsSecure (send_made c z payload q)
  unfolding send_made
  send_made-KeepsSecure z payload (inr e) = λ t. refl
  send_made-KeepsSecure z payload (inl q) =
      bind-KeepsSecure _ _ (λ t. refl) (λ text. write_some-KeepsSecure z text)

  request-KeepsSecure :
      (z : GoString) (payload : IqPayload) (id : GoString) → KeepsSecure (request c z payload id)
  unfolding request
  request-KeepsSecure z payload id = send_made-KeepsSecure z payload (new_iq none (set_request id))

  read_iq-KeepsSecure : (context : GoString) → KeepsSecure (read_iq context)
  unfolding read_iq
  read_iq-KeepsSecure context t = read-secure t

  pub bind_resource-Keeps : Keeps (bind_resource c)
  unfolding bind_resource bind_exchange
  bind_resource-Keeps = unless_failed-Keeps _ (λ n.
      after-Kept set_bind_jid (bind_exchange c n.config.parsed_jid.resource (packet_id n).0)
        (packet_id n).1
        (bind-KeepsSecure _ _ (request-KeepsSecure _ _ _)
          (λ u. bind-KeepsSecure _ _ (read_iq-KeepsSecure bind_context) (λ q t. refl))))

  open_session-Keeps : Keeps (open_session c)
  unfolding open_session session_exchange
  open_session-Keeps n =
      after-Kept same_session (session_exchange c (packet_id n).0) (packet_id n).1 (
        bind-KeepsSecure _ _ (request-KeepsSecure _ _ _) (λ u. read_iq-KeepsSecure session_context))

  pub rfc_3921_session-Keeps : Keeps (rfc_3921_session c)
  unfolding rfc_3921_session
  rfc_3921_session-Keeps = unless_failed-Keeps _ (λ n. ground (arith, open_session-Keeps n))
