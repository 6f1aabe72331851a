-- ===== src/Session/Bind/Queue.antt =====
-- The requests of a session for a resource and for a session leave the stream management alone.
use go_xmpp.Session.{Codec, Negotiation, Session}
use go_xmpp.Session.Bind.{
  after, bind_resource, open_session, packet_id, rfc_3921_session, same_session, set_bind_jid,
}
use go_xmpp.Session.Queue.{KeepsState, unless_failed-KeepsState}
use go_xmpp.Transport.{Transport}
use go_xmpp.Result.{Result, err, ok}
use go_xmpp.Prelude.{arith, refl, ◌≡◌}

after-KeepsState :
    {A : Type 0} (f : A → Session → Session) (r : Result A) (t : Transport) (n : Negotiation)
    → ((a : A) (s : Session) → (f a s).sm_state ≡ s.sm_state)
    → (after f (r, t) n).session.sm_state ≡ n.session.sm_state
unfolding after
after-KeepsState f (ok a) t n keeps = keeps a n.session
after-KeepsState f (err e) t n keeps = refl

module _ (c : Codec) where
  pub bind_resource-KeepsState : KeepsState (bind_resource c)
  unfolding bind_resource set_bind_jid
  bind_resource-KeepsState =
      unless_failed-KeepsState _
        (λ n. after-KeepsState set_bind_jid _ _ (packet_id n).1 (λ jid s. refl))

  open_session-KeepsState : KeepsState (open_session c)
  unfolding open_session same_session
  open_session-KeepsState n = after-KeepsState same_session _ _ (packet_id n).1 (λ q s. refl)

  pub rfc_3921_session-KeepsState : KeepsState (rfc_3921_session c)
  unfolding rfc_3921_session
  rfc_3921_session-KeepsState =
      unless_failed-KeepsState _ (λ n. ground (arith, open_session-KeepsState n))
