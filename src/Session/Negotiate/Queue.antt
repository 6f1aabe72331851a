-- ===== src/Session/Negotiate/Queue.antt =====
-- What NewSession makes of the queue of an earlier session.
use go_xmpp.Session.{Codec, Config, Negotiation, Session, SmState, auth, init, reset}
use go_xmpp.Session.Queue.{
  IsRenewed, IsRenewed-new, IsRenewed-none, KeepsState, auth-KeepsState, equal-IsRenewed,
  init-KeepsState, queue_of, reset-KeepsState, start_tls_if_supported-KeepsState,
}
use go_xmpp.Session.Negotiate.{
  Made, and_then, authenticated, await_enable, enable_reply, enable_stream_management, enable_with,
  established, negotiated, new_session, opened_session, refused, returned, session_of, tls_gate,
  tls_step, try_resume,
}
use go_xmpp.Stanza.UnAckQueue.{UnAckQueue, new_un_ack_queue}
use go_xmpp.Transport.{Transport, Wrote, failed, write}
use go_xmpp.Transport.Io.{next_packet}
use go_xmpp.Stanza.Packet.{Packet, does_stream_management, sm_enabled, sm_failed}
use go_xmpp.Result.{Result, err, ok}
use go_xmpp.Text.{GoString}
use mathlib.Core.Path.{subst}
use go_xmpp.Prelude.{
  Bool, Bool-cases, Option, Option-cases, ap, arith, false, inl, inr, none, not, refl, some, true,
  ◌&&◌, ◌||◌, ◌≡◌, ◌⊎◌,
}
use go_xmpp.Session.Bind.{bind_resource, rfc_3921_session}
use go_xmpp.Session.Bind.Queue.{bind_resource-KeepsState, rfc_3921_session-KeepsState}
use go_xmpp.Session.Resume.{resume}
use go_xmpp.Session.Resume.Queue.{resume-IsRenewed}

-- The queue is kept, or it is a new one.
abbrev IsEnabled : Option UnAckQueue → Option UnAckQueue → Type 0
IsEnabled q q' = (q' ≡ q) ⊎ (q' ≡ some new_un_ack_queue)

enabled-IsRenewed : {q a b : Option UnAckQueue} → IsEnabled a b → IsRenewed q a → IsRenewed q b
enabled-IsRenewed (inl e) r = equal-IsRenewed e r
enabled-IsRenewed (inr e) r = IsRenewed-new e

enable_reply-IsEnabled :
    (r : Result Packet) (n : Negotiation) → IsEnabled (queue_of n) (queue_of (enable_reply r n))
unfolding enable_reply
enable_reply-IsEnabled (err e) n = inl refl
enable_reply-IsEnabled (ok (sm_enabled e)) n = inr refl
enable_reply-IsEnabled (ok (sm_failed group)) n = inr refl
enable_reply-IsEnabled (ok p) n = inl refl

await_enable-IsEnabled :
    (w : Wrote) (t : Transport) (n : Negotiation)
    → IsEnabled (queue_of n) (queue_of (await_enable (w, t) n))
unfolding await_enable
await_enable-IsEnabled (failed e) t n = inl refl
await_enable-IsEnabled w t n =
    enable_reply-IsEnabled (next_packet t).0 (record n { transport = (next_packet t).1 })

enable_with-IsEnabled :
    (r : Result GoString) (n : Negotiation) → IsEnabled (queue_of n) (queue_of (enable_with r n))
unfolding enable_with
enable_with-IsEnabled (err e) n = inl refl
enable_with-IsEnabled (ok text) n =
    await_enable-IsEnabled (write text n.transport).0 (write text n.transport).1 n

-- The queue of the session that NewSession returns, none if it returns none.
abbrev pub queue_made : Made → Option UnAckQueue
queue_made m = elim m.session [ none ↦ none | some s ↦ s.sm_state.un_ack_queue ]

-- What a session that is negotiated from `n` on comes to.
abbrev Renews : Negotiation → Made → Type 0
Renews n m = IsRenewed (queue_of n) (queue_made m)

-- A step that keeps the state, after it.
from_kept :
    (a b : Negotiation) (m : Made)
    → b.session.sm_state ≡ a.session.sm_state
    → Renews b m
    → Renews a m
from_kept a b m e = subst (λ (x : SmState). IsRenewed x.un_ack_queue (queue_made m)) e

-- `if s.err != nil { return s, s.err }` after a step.
and_then-IsRenewed :
    (q : Option UnAckQueue) (n : Negotiation) (k : Negotiation → Made)
    → IsRenewed q (queue_of n)
    → IsRenewed q (queue_made (k n))
    → IsRenewed q (queue_made (and_then n k))
unfolding returned
and_then-IsRenewed q n k stops goes = elim (Option-cases n.session.failure) [
  | inl e ↦ equal-IsRenewed (ground (arith, e)) goes
  | inr (x, e) ↦ equal-IsRenewed (ground (arith, e)) stops
]

module _ (c : Codec) where
  enable_stream_management-IsEnabled :
      (n : Negotiation) → IsEnabled (queue_of n) (queue_of (enable_stream_management c n))
  unfolding enable_stream_management
  enable_stream_management-IsEnabled n = elim (Option-cases n.session.failure) [
    | inr (e, q) ↦ inl (ground (arith, q))
    | inl q ↦
        elim (Bool-cases (
          not (does_stream_management n.session.features)
          || not n.config.stream_management_enable)) [
            | inl off ↦ inl (ground (arith, q, off))
            | inr on ↦
                subst (λ x. IsEnabled (queue_of n) x) (ground (arith, q, on))
                  (enable_with-IsEnabled (c.marshal_enable n.config.stream_management_resume) n)
          ]
  ]

  established-IsRenewed :
      (q : Option UnAckQueue) (n : Negotiation)
      → IsRenewed q (queue_of n)
      → IsRenewed q (queue_made (established c n))
  unfolding established returned
  established-IsRenewed q n r =
      let n1 = bind_resource c n in
      let n2 = rfc_3921_session c n1 in
      let r1 = equal-IsRenewed (ap (λ s. s.un_ack_queue) (bind_resource-KeepsState c n)) r in
      let r2 = equal-IsRenewed (ap (λ s. s.un_ack_queue) (rfc_3921_session-KeepsState c n1)) r1 in
      let ends : Negotiation → Made = λ n3. returned (enable_stream_management c n3) in
      and_then-IsRenewed q n1 (λ n3. and_then (rfc_3921_session c n3) ends) r1
        (and_then-IsRenewed q n2 ends r2
          (enabled-IsRenewed (enable_stream_management-IsEnabled n2) r2))

  try_resume-IsRenewed :
      (q : Option UnAckQueue) (b : Bool) (n : Negotiation)
      → IsRenewed q (queue_of n)
      → IsRenewed q (queue_made (try_resume c (b, n)))
  unfolding try_resume returned
  try_resume-IsRenewed q true n r = r
  try_resume-IsRenewed q false n r = established-IsRenewed q n r

  authenticated-Renews : (n : Negotiation) → Renews n (authenticated c n)
  unfolding authenticated
  authenticated-Renews n =
      let n2 = auth c n in
      let n3 = reset n2 in
      let r2 : IsRenewed (queue_of n) (queue_of n2) =
        inl (ap (λ s. s.un_ack_queue) (auth-KeepsState c n)) in
      let ends : Negotiation → Made = λ n4. try_resume c (resume c n4) in
      and_then-IsRenewed (queue_of n) n2 (λ n4. and_then (reset n4) ends) r2
        (from_kept n n2 (and_then n3 ends) (auth-KeepsState c n) (
          and_then-IsRenewed (queue_of n2) n3 ends
            (inl (ap (λ s. s.un_ack_queue) (reset-KeepsState n2)))
            (from_kept n2 n3 (ends n3) (reset-KeepsState n2) (
              try_resume-IsRenewed (queue_of n3) (resume c n3).0 (resume c n3).1
                (resume-IsRenewed c n3)))))

  second-Renews :
      (n n0 : Negotiation)
      → n0.session.sm_state ≡ n.session.sm_state
      → Renews n (authenticated c (record n0 { session = record n0.session { resumed = false } }))
  second-Renews n n0 e =
      let n1 = record n0 { session = record n0.session { resumed = false } } in
      from_kept n n1 (authenticated c n1) e (authenticated-Renews n1)

  negotiated-Renews : (n : Negotiation) → Renews n (negotiated c n)
  unfolding negotiated
  negotiated-Renews n = elim (Bool-cases n.session.tls_enabled) [
    | inl on ↦ equal-IsRenewed (ground (arith, on)) (second-Renews n (reset n) (reset-KeepsState n))
    | inr off ↦ equal-IsRenewed (ground (arith, off)) (second-Renews n n refl)
  ]

  tls_gate-Renews : (n : Negotiation) → Renews n (tls_gate c n)
  unfolding tls_gate refused
  tls_gate-Renews n = elim (Bool-cases (not n.transport.is_secure && not n.config.insecure)) [
    | inl clear ↦ IsRenewed-none (ground (arith, clear))
    | inr fine ↦ equal-IsRenewed (ground (arith, fine)) (negotiated-Renews n)
  ]

  tls_step-KeepsState : KeepsState tls_step
  unfolding tls_step
  tls_step-KeepsState n = ground (arith, start_tls_if_supported-KeepsState n)

  opened_session-Renews : (n : Negotiation) → Renews n (opened_session c n)
  unfolding opened_session refused
  opened_session-Renews n = elim (Option-cases n.session.failure) [
    | inr (e, q) ↦ IsRenewed-none (ground (arith, q))
    | inl q ↦ equal-IsRenewed (ground (arith, q)) (
        from_kept n (tls_step n) (tls_gate c (tls_step n)) (tls_step-KeepsState n)
          (tls_gate-Renews (tls_step n)))
  ]

  -- Whatever the server answers, the session that NewSession makes has the queue of the session that it
  -- was given, or that queue less what an acknowledgement of some number of stanzas covers, or no queue,
  -- or a new, empty one; where NewSession makes no session there is no queue.
  pub new_session-IsRenewed :
      (previous : Option Session) (state : SmState) (t : Transport) (o : Config)
      → IsRenewed
          (session_of previous state).sm_state.un_ack_queue
          (queue_made (new_session c previous state t o))
  unfolding new_session
  new_session-IsRenewed previous state t o =
      let n : Negotiation = record {
        session = session_of previous state;
        transport = t;
        config = o;
      } in
      from_kept n (init n) (opened_session c (init n)) (init-KeepsState n)
        (opened_session-Renews (init n))
