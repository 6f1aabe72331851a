-- ===== src/Session/Resume/Laws.antt =====
-- What Session.resume leaves of the stream management state, on every branch.
use go_xmpp.Text.{is_empty, text_eq_iff, text_eq_instance}
use go_xmpp.Result.{Result, ok}
use go_xmpp.Stanza.Packet.{Packet, SmResumed, does_stream_management, sm_resumed}
use go_xmpp.Session.{Codec, Negotiation, SmState, no_sm_state}
use go_xmpp.Session.Resume.{acknowledged, await_reply, or_empty, resume, resume_reply}
use go_xmpp.Stanza.UnAckQueue.{UnAckQueue, acknowledge, int_of_uint}
use go_xmpp.Prelude.{
  Bool, Bool-cases, Option, Option-cases, ap, arith, false, inl, inr, nat_eq, none, not, refl, some,
  sym, true, ℕ, ◌&&◌, ◌==◌, ◌∙◌, ◌≡◌, ◌⊎◌,
}
use go_xmpp.Transport.{Transport, Wrote, failed, write}
use go_xmpp.Transport.Io.{next_packet}

-- A reply that resumes is SMResumed with the id asked for.
resume_reply-true :
    (r : Result Packet) (n : Negotiation)
    → (resume_reply r n).0 ≡ true
    → (p : SmResumed) × (r ≡ ok (sm_resumed p))
      × (p.prev_id ≡ n.session.sm_state.id)
      × (resume_reply r n ≡ (
        true,
        record n {
          session = record n.session {
            failure = none;
            resumed = true;
            sm_state = acknowledged p.h n.session.sm_state;
          };
        },
      ))
unfolding resume_reply
resume_reply-true (ok (sm_resumed p)) n e = elim (Bool-cases (p.prev_id == n.session.sm_state.id)) [
  | inl q ↦ (p, refl, (text_eq_iff p.prev_id n.session.sm_state.id).0 q, ground (arith, q))
  | inr q ↦ absurd (ground (arith, q, e))
]
resume_reply-true _ n e = ground (arith, e)

resume_reply-false :
    (r : Result Packet) (n : Negotiation)
    → (resume_reply r n).0 ≡ false
    → (resume_reply r n).1.session.sm_state ≡ no_sm_state
unfolding resume_reply
resume_reply-false (ok (sm_resumed p)) n e = ground arith
resume_reply-false _ n e = ground arith

-- What a count of the server leaves of a queue: all of it where there is no count, and else what the
-- acknowledgement of that many stanzas leaves.
abbrev pub queue_left : Option ℕ → Option UnAckQueue → Option UnAckQueue
queue_left none q = q
queue_left (some h) none = none
queue_left (some h) (some u) = some (acknowledge (int_of_uint h) u)

acknowledged-queue_left :
    (h : Option ℕ) (state : SmState)
    → acknowledged h state ≡ record state { un_ack_queue = queue_left h state.un_ack_queue }
unfolding acknowledged
acknowledged-queue_left none state = refl
acknowledged-queue_left (some h) state = elim (Option-cases state.un_ack_queue) [
  | inl q ↦ ground (arith, q)
  | inr (u, q) ↦ ground (arith, q)
]

-- What a resumed session is, where the reply is read from the transport `t`.
abbrev pub Resumed : Transport → Negotiation → Negotiation → Type 0
Resumed t n n' =
    (p : SmResumed) × (t' : Transport) × (next_packet t ≡ (ok (sm_resumed p), t'))
    × (p.prev_id ≡ n.session.sm_state.id)
    × (n' ≡ record {
      session = record n.session {
        failure = none;
        resumed = true;
        sm_state = record n.session.sm_state {
          un_ack_queue = queue_left p.h n.session.sm_state.un_ack_queue;
        };
      };
      transport = t';
      config = n.config;
    })

next_then :
    (r : Result Packet × Transport) (t : Transport) (n n' : Negotiation)
    → next_packet t ≡ r
    → resume_reply r.0 (record n { transport = r.1 }) ≡ (true, n')
    → Resumed t n n'
next_then (r, t') t n n' q e =
    let (p, s, id, all) = resume_reply-true r (record n { transport = t' }) (ap (λ x. x.0) e) in
    (
      p,
      t',
      q ∙ ap (λ x. (x, t')) s,
      id,
      ap (λ x. x.1) (sym e ∙ all)
          ∙ ap
              (λ (state : SmState). record {
                session = record n.session { failure = none; resumed = true; sm_state = state };
                transport = t';
                config = n.config;
              })
              (acknowledged-queue_left p.h n.session.sm_state),
    )

await_true :
    (w : Wrote) (t : Transport) (n n' : Negotiation)
    → await_reply (w, t) n ≡ (true, n')
    → Resumed t n n'
unfolding await_reply
await_true (failed f) t n n' e = absurd (ground (arith, e))
await_true _ t n n' e = next_then (next_packet t) t n n' refl e

-- Whether resumption is tried at all.
abbrev pub may_resume : Negotiation → Bool
may_resume n =
    (n.config.stream_management_enable && n.config.stream_management_resume)
    && (does_stream_management n.session.features && not (is_empty n.session.sm_state.id))

-- The Write of the request, with the id and the count that were kept.
abbrev pub request_to_resume : Codec → Negotiation → Wrote × Transport
request_to_resume c n =
    write (or_empty (c.marshal_resume n.session.sm_state.id n.session.sm_state.inbound)) n.transport

module _ (c : Codec) where
  -- A session is resumed only if the configuration asks for it, the server offers stream management,
  -- an id was kept, and the reply that is read once the request is written is SMResumed with that
  -- very id. Then the session is as it was, but for the mark, the error, which is cleared, and the
  -- queue, which is as it was if the reply has no count, and else what the acknowledgement of that
  -- count leaves of it.
  pub resume_true :
      (n n' : Negotiation)
      → resume c n ≡ (true, n')
      → (may_resume n ≡ true) × Resumed (request_to_resume c n).1 n n'
  unfolding resume
  resume_true n n' e = elim (Bool-cases (may_resume n)) [
    | inr q ↦ absurd (ground (arith, q, e))
    | inl q ↦ let w = request_to_resume c n in (q, await_true w.0 w.1 n n' (ground (arith, q, e)))
  ]

  -- If it is not resumed, then either nothing was read and the session is as it was, or
  -- the state is cleared: its id and its queue are gone.
  pub resume_false :
      (n n' : Negotiation)
      → resume c n ≡ (false, n')
      → ((n'.session ≡ n.session) × (n'.transport.incoming ≡ n.transport.incoming))
        ⊎ (n'.session.sm_state ≡ no_sm_state)
  unfolding resume
  resume_false n n' e = ground arith
