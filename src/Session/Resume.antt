-- ===== src/Session/Resume.antt =====
-- session.go: Session.resume, which asks the server to continue a session of stream management.
pub mod Keeps
pub mod Queue
pub mod Laws
use go_xmpp.Transport.{Transport, Wrote, failed, write}
use go_xmpp.Transport.Io.{next_packet}
use go_xmpp.Text.{GoString, is_empty, str, text_eq_instance}
use go_xmpp.Result.{GoError, Result, err, ok, text_error}
use go_xmpp.Stanza.Packet.{Packet, SmResumed, does_stream_management, sm_failed, sm_resumed}
use go_xmpp.Stanza.UnAckQueue.{acknowledge, int_of_uint}
use go_xmpp.Session.{Codec, Negotiation, SmState, no_sm_state, set_err}
use go_xmpp.Prelude.{
  Bool, Option, [], false, if◌then◌else◌, nat_eq, none, not, some, true, ℕ, ◌==◌, ◌||◌,
}

unfoldable pub set_sm_state : SmState → Negotiation → Negotiation
set_sm_state state n = record n { session = record n.session { sm_state = state } }

-- Neither a reply that refuses nor an error keeps the state: `s.SMState = SMState{}`.
not_resumed : Option GoError → Negotiation → Bool × Negotiation
unfolding set_err set_sm_state
not_resumed e n = (false, set_sm_state no_sm_state (set_err e n))

-- The stanzas that the server's count covers leave the queue, if both are there.
unfoldable pub acknowledged : Option ℕ → SmState → SmState
unfolding int_of_uint
acknowledged none state = state
acknowledged (some h) state = elim state.un_ack_queue [
  | none ↦ state
  | some q ↦ record state { un_ack_queue = some (acknowledge (int_of_uint h) q) }
]

matched : SmResumed → Negotiation → Bool × Negotiation
unfolding acknowledged not_resumed
matched r n =
    if r.prev_id == n.session.sm_state.id
    then (
      true,
      record n {
        session = record n.session {
          failure = none;
          resumed = true;
          sm_state = acknowledged r.h n.session.sm_state;
        };
      },
    )
    else not_resumed (some (text_error (str "session resumption: mismatched id"))) n

resume_reply : Result Packet → Negotiation → Bool × Negotiation
unfolding matched not_resumed
resume_reply (err e) n = not_resumed (some e) n
resume_reply (ok (sm_resumed r)) n = matched r n
resume_reply (ok (sm_failed group)) n = not_resumed none n
resume_reply (ok p) n = not_resumed (some (text_error (str "unexpected reply to SM resume"))) n

await_reply : Wrote × Transport → Negotiation → Bool × Negotiation
unfolding next_packet resume_reply
await_reply (failed e, t) n = (false, record n { transport = t })
await_reply (_, t) n = let (r, t') = next_packet t in resume_reply r (record n { transport = t' })

-- An error of xml.Marshal is dropped: what is written is empty then.
unfoldable pub or_empty : Result GoString → GoString
or_empty (ok text) = text
or_empty (err e) = []

module _ (c : Codec) where
  ask : Negotiation → Bool × Negotiation
  unfolding write await_reply or_empty
  ask n =
      let text = or_empty (c.marshal_resume n.session.sm_state.id n.session.sm_state.inbound) in
      await_reply (write text n.transport) n

  unfoldable pub resume : Negotiation → Bool × Negotiation
  unfolding ask
  resume n =
      if not n.config.stream_management_enable || not n.config.stream_management_resume
      then (false, n)
      else if not (does_stream_management n.session.features)
      then (false, n)
      else if is_empty n.session.sm_state.id
      then (false, n)
      else ask n
