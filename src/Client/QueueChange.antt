-- ===== src/Client/QueueChange.antt =====
-- How the queue of unacknowledged stanzas of a client changes while the client is used: any sequence
-- of calls of Send, SendRaw and SendIQ and of turns of the receiver, in any order.
use go_xmpp.Text.{GoString, str, text_eq_instance}
use go_xmpp.Transport.Io.{next_packet}
use go_xmpp.Transport.{Transport}
use go_xmpp.Result.{Result-cases}
use go_xmpp.Stanza.Packet.{Iq, Packet, iq, sm_answer, sm_request, stream_error}
use go_xmpp.Stanza.UnAckQueue.{
  UnAckQueue, acknowledge, int_of_uint, other_queueable, push, un_acked,
}
use go_xmpp.Stanza.UnAckQueue.Ids.{IsConsecutive, ops-IsConsecutive}
use go_xmpp.EventManager.{notify}
use go_xmpp.Session.{Codec, Session}
use go_xmpp.Router.{new_iq_result_route}
use go_xmpp.Router.Dispatch.{route, send_missing_stz}
use go_xmpp.Client.{Client, client_sender, is_ack, send, send_iq, send_raw, store, tell, write_data}
use go_xmpp.Client.Unacked.{send_ack-session, send_missing_stz-queue, un_acked_of}
use go_xmpp.Client.Connect.{disconnect}
use go_xmpp.Client.Receive.{on_packet, on_read, receive, route_now}
use go_xmpp.Client.Receive.Counts.{route_error}
use mathlib.Core.Path.{subst}
use go_xmpp.Prelude.{
  Bool-cases, Option, Option-cases, [], arith, inl, inr, nat_eq, none, not, refl, some, sym, ℕ,
  ◌&&◌, ◌==◌, ◌≡◌, ◌⊎◌,
}

-- A stanza was stored, or an acknowledgement took those that it covers.
abbrev pub IsPushed : Option UnAckQueue → Option UnAckQueue → Type 0
IsPushed q q' =
    (text : GoString) × (u : UnAckQueue) × (q ≡ some u)
    × (q' ≡ (push (un_acked (record { id = 0; stz = text })) (some u)).0)

abbrev pub IsAcknowledged : Option UnAckQueue → Option UnAckQueue → Type 0
IsAcknowledged q q' = (h : ℕ) × (u : UnAckQueue) × (q ≡ some u) × (q' ≡ some (acknowledge h u))

abbrev pub IsChanged : Option UnAckQueue → Option UnAckQueue → Type 0
IsChanged q q' = (q' ≡ q) ⊎ (IsPushed q q' ⊎ IsAcknowledged q q')

pub IsChanged-IsConsecutive :
    (q q' : Option UnAckQueue) → IsChanged q q' → IsConsecutive q → IsConsecutive q'
IsChanged-IsConsecutive q q' (inl e) w = subst IsConsecutive (sym e) w
IsChanged-IsConsecutive q q' (inr (inl (text, u, e, f))) w =
    subst IsConsecutive (sym f)
      (ops-IsConsecutive (un_acked (record { id = 0; stz = text })) 0 0 u
        (subst IsConsecutive e w)).0
IsChanged-IsConsecutive q q' (inr (inr (h, u, e, f))) w =
    let (pushed, popped, popped_n, acknowledged) =
      ops-IsConsecutive (other_queueable []) 0 h u (subst IsConsecutive e w) in
    subst IsConsecutive (sym f) acknowledged

module _ {H : Type 0} where
  abbrev pub Changed : Client H → Client H → Type 0
  Changed cl cl' = IsChanged (un_acked_of cl) (un_acked_of cl')

  equal_queue : (cl a b : Client H) → un_acked_of a ≡ un_acked_of b → Changed cl b → Changed cl a
  equal_queue cl a b e = subst (λ x. IsChanged (un_acked_of cl) x) (sym e)

  store-Changed :
      (text : GoString) (s : Session) (t : Transport) (cl : Client H)
      → cl.session ≡ some s
      → Changed cl (store text s t cl).1
  unfolding store write_data
  store-Changed text s t cl hs = elim (Option-cases s.sm_state.un_ack_queue) [
    | inl q ↦ inl (ground (arith, q))
    | inr (u, q) ↦ inr (inl (text, u, ground (arith, hs, q), ground (arith, hs, q)))
  ]

  send_raw-Changed : (text : GoString) (cl : Client H) → Changed cl (send_raw text cl).1
  unfolding send_raw write_data
  send_raw-Changed text cl = elim (Option-cases cl.transport) [
    | inl q ↦ inl (ground (arith, q))
    | inr (t, q) ↦ elim (Option-cases cl.session) [
      | inl r ↦ inl (ground (arith, q, r))
      | inr (s, r) ↦ elim (Bool-cases cl.config.stream_management_enable) [
        | inl on ↦
            equal_queue cl (send_raw text cl).1 (store text s t cl).1 (ground (arith, q, r, on))
              (store-Changed text s t cl r)
        | inr off ↦ inl (ground (arith, q, r, off))
      ]
    ]
  ]

module _ {H : Type 0} (c : Codec) where
  send-Changed : (p : Packet) (cl : Client H) → Changed cl (send c p cl).1
  unfolding send write_data
  send-Changed p cl = elim (Option-cases cl.transport) [
    | inl q ↦ inl (ground (arith, q))
    | inr (t, q) ↦ elim (Option-cases cl.session) [
      | inl r ↦ inl (ground (arith, q, r))
      | inr (s, r) ↦ elim (Result-cases (c.marshal p)) [
        | inr (e, m) ↦ inl (ground (arith, q, r, m))
        | inl (text, m) ↦ elim (Bool-cases (cl.config.stream_management_enable && not (is_ack p))) [
          | inl on ↦
              equal_queue cl (send c p cl).1 (store text s t cl).1 (ground (arith, q, r, m, on))
                (store-Changed text s t cl r)
          | inr off ↦ inl (ground (arith, q, r, m, off))
        ]
      ]
    ]
  ]

  send_iq-Changed : (chan : ℕ) (q : Iq) (cl : Client H) → Changed cl (send_iq c chan q cl).1
  unfolding send_iq
  send_iq-Changed chan q cl =
      let cl1 = record cl { router = new_iq_result_route q.attrs.id chan cl.router } in
      let r = send c (iq q) cl1 in
      elim (Bool-cases (not (q.attrs.kind == str "set") && not (q.attrs.kind == str "get"))) [
        | inl bad ↦ inl (ground (arith, bad))
        | inr good ↦ elim (Option-cases r.0) [
          | inl k ↦
              equal_queue cl (send_iq c chan q cl).1 r.1 (ground (arith, good, k))
                (send-Changed (iq q) cl1)
          | inr (e, k) ↦
              equal_queue cl (send_iq c chan q cl).1 r.1 (ground (arith, good, k))
                (send-Changed (iq q) cl1)
        ]
      ]

  send_missing_stz_nil :
      (h : ℕ) (cl : Client H) → send_missing_stz (client_sender c) h none cl ≡ (none, cl)
  unfolding send_missing_stz
  send_missing_stz_nil h cl = refl

  route_answer-Changed :
      (h : ℕ) (s : Session) (cl : Client H)
      → cl.session ≡ some s
      → Changed cl (route_now c (sm_answer h) cl)
  unfolding route_now route
  route_answer-Changed h s cl hs = elim (Option-cases s.sm_state.un_ack_queue) [
    | inl q ↦ inl (ground (arith, hs, q, send_missing_stz_nil (int_of_uint h) cl))
    | inr (u, q) ↦ inr (
        inr (
          int_of_uint h,
          u,
          ground (arith, hs, q),
          ground
              (arith, hs, q, send_missing_stz-queue c (int_of_uint h) u cl (ground (arith, hs, q))),
        ))
  ]

  on_packet-Changed :
      (s : Session) (p : Packet) (cl : Client H)
      → cl.session ≡ some s
      → Changed cl (on_packet c s p cl).1
  unfolding on_packet is_ack tell notify disconnect
  on_packet-Changed s (stream_error e) cl h = inl (ground (arith, route_error c e cl))
  on_packet-Changed s sm_request cl h =
      let r = send c (sm_answer s.sm_state.inbound) cl in
      elim (Option-cases r.0) [
        | inl q ↦ inl (ground (arith, q, send_ack-session c (sm_answer s.sm_state.inbound) cl refl))
        | inr (e, q) ↦
            inl (ground (arith, q, send_ack-session c (sm_answer s.sm_state.inbound) cl refl))
      ]
  on_packet-Changed s (sm_answer n) cl h = route_answer-Changed n s cl h
  on_packet-Changed s p cl h = inl (ground (arith, h))

  receive-Changed : (cl : Client H) → Changed cl (receive c cl).1
  unfolding receive on_read tell notify
  receive-Changed cl = elim (Option-cases cl.transport) [
    | inl q ↦ inl (ground (arith, q))
    | inr (t, q) ↦ elim (Option-cases cl.session) [
      | inl r ↦ inl (ground (arith, q, r))
      | inr (s, r) ↦ elim (Result-cases (next_packet t).0) [
        | inr (e, k) ↦ inl (ground (arith, q, r, k))
        | inl (p, k) ↦
            let cl1 = record cl { transport = some (next_packet t).1 } in
            equal_queue cl (receive c cl).1 (on_packet c s p cl1).1 (ground (arith, q, r, k))
              (on_packet-Changed s p cl1 r)
      ]
    ]
  ]

  -- What the program may do with a connected client, one call or turn at a time.
  pub data Step : Client H → Client H → Type 0 where
    sends : (p : Packet) (cl : Client H) → Step cl (send c p cl).1
    sends_raw : (text : GoString) (cl : Client H) → Step cl (send_raw text cl).1
    sends_iq : (chan : ℕ) (q : Iq) (cl : Client H) → Step cl (send_iq c chan q cl).1
    receives : (cl : Client H) → Step cl (receive c cl).1

  pub data Steps : Client H → Client H → Type 0 where
    done : (cl : Client H) → Steps cl cl
    then_step : {a b d : Client H} → Step a b → Steps b d → Steps a d

  -- A single call or turn leaves the queue as it is, or puts one stanza at its end, or takes from its
  -- front what an acknowledgement covers; it never does anything else to it.
  pub Step-IsChanged : (a b : Client H) → Step a b → IsChanged (un_acked_of a) (un_acked_of b)
  Step-IsChanged a b (sends p cl) = send-Changed p cl
  Step-IsChanged a b (sends_raw text cl) = send_raw-Changed text cl
  Step-IsChanged a b (sends_iq chan q cl) = send_iq-Changed chan q cl
  Step-IsChanged a b (receives cl) = receive-Changed cl

  -- The ids of the queue stay consecutive over every sequence of calls of Send, SendRaw and SendIQ and
  -- of turns of the receiver, whatever their order and whatever the server sends.
  pub Steps-IsConsecutive :
      (a b : Client H) → Steps a b → IsConsecutive (un_acked_of a) → IsConsecutive (un_acked_of b)
  Steps-IsConsecutive a b (done cl) w = w
  Steps-IsConsecutive a b (then_step {b = m} s rest) w =
      Steps-IsConsecutive m b rest
        (IsChanged-IsConsecutive (un_acked_of a) (un_acked_of m) (Step-IsChanged a m s) w)
