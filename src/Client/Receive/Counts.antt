-- ===== src/Client/Receive/Counts.antt =====
-- What a turn of the receiver leaves of the elements to come and of the count of stanzas received.
use go_xmpp.Text.{GoString, str}
use go_xmpp.Transport.{Incoming, Transport, close}
use go_xmpp.Transport.Io.{send_with_writer}
use go_xmpp.Stanza.Packet.{Packet, StreamError, sm_answer, sm_request, stream_error}
use go_xmpp.Stanza.UnAckQueue.{UnAckQueue, UnAckedStz, acknowledge, int_of_uint}
use go_xmpp.Session.{Codec, Session}
use go_xmpp.Router.Dispatch.{request, resend_all, route, run_matched, send_missing_stz}
use go_xmpp.EventManager.{stream_error_event}
use go_xmpp.Client.{Client, client_sender, send, store, tell, write_data}
use go_xmpp.Prelude.{
  List, Option, Option-cases, [], arith, inl, inr, none, refl, some, ℕ, ◌++◌, ◌+◌, ◌∷◌, ◌≡◌,
}
use go_xmpp.Result.{GoError, Result-cases, text_error}
use go_xmpp.Client.Connect.{disconnect}
use go_xmpp.Client.Receive.{counts, on_packet, report, route_now, stream_failed}
use go_xmpp.Router.{match_routes}

-- What the decoder of the client has still to give.
abbrev pub incoming_of : {H : Type 0} → Client H → List Incoming
incoming_of cl = elim cl.transport [ none ↦ [] | some t ↦ t.incoming ]

abbrev pub inbound_of : {H : Type 0} → Client H → ℕ
inbound_of cl = elim cl.session [ none ↦ 0 | some s ↦ s.sm_state.inbound ]

send_with_writer_incoming :
    (text : GoString) (t : Transport) → (send_with_writer text t).1.incoming ≡ t.incoming
unfolding send_with_writer
send_with_writer_incoming text t = ground arith

close_incoming : (t : Transport) → (close t).incoming ≡ t.incoming
unfolding close
close_incoming t = ground arith

-- The two of a client that a turn of the receiver is about.
abbrev pub SameCounts : {H : Type 0} → Client H → Client H → Type 0
SameCounts cl cl' = (incoming_of cl' ≡ incoming_of cl) × (inbound_of cl' ≡ inbound_of cl)

module _ {H : Type 0} where
  write_data_counts :
      (text : GoString) (t : Transport) (cl : Client H)
      → (incoming_of (write_data text t cl).1 ≡ t.incoming)
        × (inbound_of (write_data text t cl).1 ≡ inbound_of cl)
  unfolding write_data
  write_data_counts text t cl = ground (arith, send_with_writer_incoming text t)

  store_counts :
      (text : GoString) (s : Session) (t : Transport) (cl : Client H)
      → cl.session ≡ some s
      → cl.transport ≡ some t
      → SameCounts cl (store text s t cl).1
  unfolding store write_data
  store_counts text s t cl hs ht = ground (arith, hs, ht, send_with_writer_incoming text t)

module _ {H : Type 0} (c : Codec) where
  send_counts : (p : Packet) (cl : Client H) → SameCounts cl (send c p cl).1
  unfolding send
  send_counts p cl = elim (Option-cases cl.transport) [
    | inl q ↦ ground (arith, q)
    | inr (t, q) ↦ elim (Option-cases cl.session) [
      | inl r ↦ ground (arith, q, r)
      | inr (s, r) ↦ elim (Result-cases (c.marshal p)) [
        | inr (e, m) ↦ ground (arith, q, r, m)
        | inl (text, m) ↦
            ground (arith, q, r, m, store_counts text s t cl r q, write_data_counts text t cl)
      ]
    ]
  ]

  resend_counts :
      (text : GoString) (cl : Client H) → SameCounts cl ((client_sender c).resend text cl).1
  unfolding client_sender
  resend_counts text cl = elim (Option-cases cl.transport) [
    | inl q ↦ ground (arith, q)
    | inr (t, q) ↦ ground (arith, q, write_data_counts text t cl)
  ]

  put_counts : (q : UnAckQueue) (cl : Client H) → SameCounts cl ((client_sender c).set_queue q cl)
  unfolding client_sender
  put_counts q cl = ground arith

  resend_all_counts :
      (l : List UnAckedStz) (cl : Client H) → SameCounts cl (resend_all (client_sender c) l cl).1
  unfolding resend_all
  resend_all_counts [] cl = (refl, refl)
  resend_all_counts (raw ∷ l) cl =
      let r = (client_sender c).resend raw.stz cl in
      elim (Option-cases r.0) [
        | inl q ↦ ground (arith, q, resend_all_counts l r.1, resend_counts raw.stz cl)
        | inr (e, q) ↦ ground (arith, q, resend_counts raw.stz cl)
      ]

  request_counts :
      (l : List UnAckedStz) (e : Option GoError) (cl : Client H)
      → SameCounts cl (request (client_sender c) l (e, cl)).1
  unfolding request client_sender
  request_counts l (some e) cl = (refl, refl)
  request_counts [] none cl = (refl, refl)
  request_counts (raw ∷ l) none cl = send_counts sm_request cl

  send_missing_stz_counts :
      (h : ℕ) (q : Option UnAckQueue) (cl : Client H)
      → SameCounts cl (send_missing_stz (client_sender c) h q cl).1
  unfolding send_missing_stz
  send_missing_stz_counts h none cl = (refl, refl)
  send_missing_stz_counts h (some q) cl =
      let rest = acknowledge h q in
      let cl1 = (client_sender c).set_queue rest cl in
      let r = resend_all (client_sender c) rest.uslice cl1 in
      ground (
        arith,
        request_counts rest.uslice r.0 r.1,
        resend_all_counts rest.uslice cl1,
        put_counts rest cl,
      )

  route_answer_counts : (h : ℕ) (cl : Client H) → SameCounts cl (route_now c (sm_answer h) cl)
  unfolding route_now route client_sender
  route_answer_counts h cl = elim (Option-cases cl.session) [
    | inl q ↦ ground (arith, q)
    | inr (s, q) ↦
        ground (arith, q, send_missing_stz_counts (int_of_uint h) s.sm_state.un_ack_queue cl)
  ]

  pub route_error :
      (e : StreamError) (cl : Client H)
      → route_now c (stream_error e) cl
        ≡ record cl { effects = cl.effects ++ run_matched cl.router (stream_error e) }
  unfolding route_now route client_sender
  route_error e cl = elim (Option-cases (match_routes cl.router.routes (stream_error e))) [
    | inl q ↦ ground (arith, q)
    | inr (m, q) ↦ ground (arith, q)
  ]

  disconnect_counts : (cl : Client H) → SameCounts cl (disconnect cl)
  unfolding disconnect
  disconnect_counts cl = elim (Option-cases cl.transport) [
    | inl q ↦ ground (arith, q)
    | inr (t, q) ↦ ground (arith, q, close_incoming t)
  ]

  stream_failed_counts : (e : StreamError) (cl : Client H) → SameCounts cl (stream_failed c e cl)
  unfolding stream_failed tell
  stream_failed_counts e cl =
      let told = tell (stream_error_event e.error.local) (route_now c (stream_error e) cl) in
      ground (
        arith,
        route_error e cl,
        disconnect_counts (report (text_error (str "stream error: " ++ e.error.local)) told),
      )

  pub on_packet-counts :
      (s : Session) (p : Packet) (cl : Client H)
      → cl.session ≡ some s
      → (incoming_of (on_packet c s p cl).1 ≡ incoming_of cl)
        × (inbound_of (on_packet c s p cl).1 ≡ inbound_of cl + counts p)
  unfolding on_packet counts tell
  on_packet-counts s (stream_error e) cl h = ground (arith, stream_failed_counts e cl)
  on_packet-counts s sm_request cl h =
      let r = send c (sm_answer s.sm_state.inbound) cl in
      elim (Option-cases r.0) [
        | inl q ↦ ground (arith, q, send_counts (sm_answer s.sm_state.inbound) cl)
        | inr (e, q) ↦ ground (arith, q, send_counts (sm_answer s.sm_state.inbound) cl)
      ]
  on_packet-counts s (sm_answer n) cl h = ground (arith, route_answer_counts n cl)
  on_packet-counts s p cl h = ground (arith, h)
