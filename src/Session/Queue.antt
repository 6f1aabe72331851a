-- ===== src/Session/Queue.antt =====
-- The queue of unacknowledged stanzas while a session is negotiated: no step of Session touches the
-- state of stream management.
use go_xmpp.Session.{Codec, Negotiation, auth, init, reset, start_tls_if_supported, unless_failed}
use mathlib.Core.Path.{subst}
use go_xmpp.Prelude.{Option, arith, inl, inr, none, refl, some, sym, ℕ, ◌≡◌, ◌⊎◌}
use go_xmpp.Stanza.UnAckQueue.{UnAckQueue, acknowledge, new_un_ack_queue}

abbrev pub queue_of : Negotiation → Option UnAckQueue
queue_of n = n.session.sm_state.un_ack_queue

-- The queue is kept, or an acknowledgement took what it covers, or it is gone, or it is new.
abbrev pub IsRenewed : Option UnAckQueue → Option UnAckQueue → Type 0
IsRenewed q q' =
    (q' ≡ q)
    ⊎ (((h : ℕ) × (u : UnAckQueue) × (q ≡ some u) × (q' ≡ some (acknowledge h u)))
        ⊎ ((q' ≡ none) ⊎ (q' ≡ some new_un_ack_queue)))

pub equal-IsRenewed : {q a b : Option UnAckQueue} → b ≡ a → IsRenewed q a → IsRenewed q b
equal-IsRenewed {q = q} e = subst (λ x. IsRenewed q x) (sym e)

pub IsRenewed-none : {q q' : Option UnAckQueue} → q' ≡ none → IsRenewed q q'
IsRenewed-none e = inr (inr (inl e))

pub IsRenewed-new : {q q' : Option UnAckQueue} → q' ≡ some new_un_ack_queue → IsRenewed q q'
IsRenewed-new e = inr (inr (inr e))

pub IsRenewed-acknowledge :
    {q q' : Option UnAckQueue} (h : ℕ) (u : UnAckQueue)
    → q ≡ some u
    → q' ≡ some (acknowledge h u)
    → IsRenewed q q'
IsRenewed-acknowledge h u e f = inr (inl (h, u, e, f))

abbrev pub KeepsState : (Negotiation → Negotiation) → Type 0
KeepsState step = (n : Negotiation) → (step n).session.sm_state ≡ n.session.sm_state

pub init-KeepsState : KeepsState init
unfolding init
init-KeepsState n = refl

pub reset-KeepsState : KeepsState reset
unfolding reset
reset-KeepsState n = ground arith

pub unless_failed-KeepsState :
    (step : Negotiation → Negotiation) → KeepsState step → KeepsState (unless_failed step)
unless_failed-KeepsState step keeps n = ground (arith, keeps n)

pub start_tls_if_supported-KeepsState : KeepsState start_tls_if_supported
unfolding start_tls_if_supported
start_tls_if_supported-KeepsState = unless_failed-KeepsState _ (λ n. ground arith)

module _ (c : Codec) where
  pub auth-KeepsState : KeepsState (auth c)
  unfolding auth
  auth-KeepsState n = ground arith
