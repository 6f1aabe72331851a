-- ===== src/Session/Resume/Queue.antt =====
-- What a resumption makes of the queue.
use go_xmpp.Session.{Codec, Negotiation, SmState}
use go_xmpp.Session.Queue.{
  IsRenewed, IsRenewed-acknowledge, IsRenewed-none, equal-IsRenewed, queue_of,
}
use go_xmpp.Session.Resume.{acknowledged, ask, await_reply, matched, or_empty, resume, resume_reply}
use go_xmpp.Stanza.UnAckQueue.{int_of_uint}
use go_xmpp.Transport.{Transport, Wrote, failed, write}
use go_xmpp.Transport.Io.{next_packet}
use go_xmpp.Stanza.Packet.{Packet, SmResumed, does_stream_management, sm_failed, sm_resumed}
use go_xmpp.Result.{Result, err, ok}
use go_xmpp.Text.{is_empty, text_eq_instance}
use go_xmpp.Prelude.{
  Bool, Bool-cases, Option, Option-cases, arith, false, if◌then◌else◌, inl, inr, nat_eq, none, not,
  refl, some, true, ℕ, ◌==◌, ◌||◌,
}

acknowledged-IsRenewed :
    (h : Option ℕ) (state : SmState)
    → IsRenewed state.un_ack_queue (acknowledged h state).un_ack_queue
unfolding acknowledged
acknowledged-IsRenewed none state = inl refl
acknowledged-IsRenewed (some h) state = elim (Option-cases state.un_ack_queue) [
  | inl q ↦ inl (ground (arith, q))
  | inr (u, q) ↦ IsRenewed-acknowledge (int_of_uint h) u q (ground (arith, q))
]

matched-IsRenewed :
    (r : SmResumed) (n : Negotiation) → IsRenewed (queue_of n) (queue_of (matched r n).1)
unfolding matched
matched-IsRenewed r n = elim (Bool-cases (r.prev_id == n.session.sm_state.id)) [
  | inl same ↦
      equal-IsRenewed (ground (arith, same)) (acknowledged-IsRenewed r.h n.session.sm_state)
  | inr differ ↦ IsRenewed-none (ground (arith, differ))
]

resume_reply-IsRenewed :
    (r : Result Packet) (n : Negotiation) → IsRenewed (queue_of n) (queue_of (resume_reply r n).1)
unfolding resume_reply
resume_reply-IsRenewed (err e) n = IsRenewed-none refl
resume_reply-IsRenewed (ok (sm_failed group)) n = IsRenewed-none refl
resume_reply-IsRenewed (ok (sm_resumed r)) n = matched-IsRenewed r n
resume_reply-IsRenewed (ok p) n = IsRenewed-none refl

await_reply-IsRenewed :
    (w : Wrote) (t : Transport) (n : Negotiation)
    → IsRenewed (queue_of n) (queue_of (await_reply (w, t) n).1)
unfolding await_reply
await_reply-IsRenewed (failed e) t n = inl refl
await_reply-IsRenewed w t n =
    resume_reply-IsRenewed (next_packet t).0 (record n { transport = (next_packet t).1 })

-- A guard that leaves the session as it is.
guarded :
    (b : Bool) (n : Negotiation) (r : Bool × Negotiation)
    → IsRenewed (queue_of n) (queue_of r.1)
    → IsRenewed (queue_of n) (queue_of (if b then (false, n) else r).1)
guarded true n r k = inl refl
guarded false n r k = k

module _ (c : Codec) where
  ask-IsRenewed : (n : Negotiation) → IsRenewed (queue_of n) (queue_of (ask c n).1)
  unfolding ask
  ask-IsRenewed n =
      let text = or_empty (c.marshal_resume n.session.sm_state.id n.session.sm_state.inbound) in
      await_reply-IsRenewed (write text n.transport).0 (write text n.transport).1 n

  pub resume-IsRenewed : (n : Negotiation) → IsRenewed (queue_of n) (queue_of (resume c n).1)
  unfolding resume
  resume-IsRenewed n =
      let wanted = not (does_stream_management n.session.features) in
      let new_one = is_empty n.session.sm_state.id in
      let asked = if new_one then (false, n) else ask c n in
      guarded (not n.config.stream_management_enable || not n.config.stream_management_resume) n
        (if wanted then (false, n) else asked)
        (guarded wanted n asked (guarded new_one n (ask c n) (ask-IsRenewed n)))
