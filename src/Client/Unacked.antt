-- ===== src/Client/Unacked.antt =====
-- Where the client's stanzas are until the server acknowledges them.
pub mod Resend
use go_xmpp.Text.{GoString}
use go_xmpp.Transport.{Transport}
use go_xmpp.Transport.Io.{send_with_writer}
use go_xmpp.Result.{GoError, ok}
use go_xmpp.Stanza.Packet.{Packet, sm_request}
use go_xmpp.Stanza.UnAckQueue.{UnAckQueue, UnAckedStz, acknowledge}
use go_xmpp.Stanza.UnAckQueue.Fifo.{payloads, payloads-push, texts}
use go_xmpp.Session.{Codec, Session, as_error}
use go_xmpp.Router.Dispatch.{request, resend_all, send_missing_stz}
use go_xmpp.Client.{Client, client_sender, is_ack, put_queue, send, write_raw}
use go_xmpp.Prelude.{
  Bool-cases, List, Option, Option-cases, [], ap, append-nil, append_assoc, arith, false, inl, inr,
  length, nat_beq, none, refl, some, true, ℕ, ◌++◌, ◌∷◌, ◌≡◌,
}

-- The queue of the client's session.
abbrev pub un_acked_of : {H : Type 0} → Client H → Option UnAckQueue
un_acked_of cl = elim cl.session [ none ↦ none | some s ↦ s.sm_state.un_ack_queue ]

acknowledge_empty :
    (h : ℕ) (l : List UnAckedStz)
    → nat_beq (length l) 0 ≡ true
    → acknowledge h (record { uslice = l }) ≡ record { uslice = l }
unfolding acknowledge
acknowledge_empty h [] e = refl
acknowledge_empty h (s ∷ l) e = absurd (ground (arith, e))

module _ {H : Type 0} (c : Codec) where
  -- With stream management on, a stanza that Send marshals, of whatever kind but a request or an
  -- answer of stream management, is put at the end of the queue, before it is written and whether or
  -- not the Write succeeds; Send returns the error of the Write.
  pub send_stored :
      (p : Packet) (text : GoString) (cl : Client H) (s : Session) (t : Transport) (q : UnAckQueue)
      → cl.session ≡ some s
      → cl.transport ≡ some t
      → s.sm_state.un_ack_queue ≡ some q
      → cl.config.stream_management_enable ≡ true
      → is_ack p ≡ false
      → c.marshal p ≡ ok text
      → (payloads (un_acked_of (send c p cl).1) ≡ payloads (some q) ++ text ∷ [])
        × ((send c p cl).0 ≡ as_error (send_with_writer text t).0)
        × ((send c p cl).1.transport ≡ some (send_with_writer text t).1)
  unfolding send
  send_stored p text cl s t q hs ht hq on stanza m =
      ground (arith, hs, ht, hq, on, stanza, m, payloads-push q (record { id = 0; stz = text }) [])

  -- Requests and answers of stream management change nothing of the session.
  pub send_ack-session :
      (p : Packet) (cl : Client H) → is_ack p ≡ true → (send c p cl).1.session ≡ cl.session
  unfolding send
  send_ack-session p cl ack = ground (arith, ack)

  write_raw-session : (text : GoString) (cl : Client H) → (write_raw text cl).1.session ≡ cl.session
  unfolding write_raw
  write_raw-session text cl = ground arith

  resend_all-session :
      (l : List UnAckedStz) (cl : Client H)
      → (resend_all (client_sender c) l cl).1.session ≡ cl.session
  unfolding resend_all client_sender
  resend_all-session [] cl = refl
  resend_all-session (raw ∷ l) cl =
      let r = write_raw raw.stz cl in
      elim (Option-cases r.0) [
        | inl q ↦ ground (arith, q, resend_all-session l r.1, write_raw-session raw.stz cl)
        | inr (e, q) ↦ ground (arith, q, write_raw-session raw.stz cl)
      ]

  request-session :
      (l : List UnAckedStz) (e : Option GoError) (cl : Client H)
      → (request (client_sender c) l (e, cl)).1.session ≡ cl.session
  unfolding request client_sender is_ack
  request-session l (some e) cl = refl
  request-session [] none cl = refl
  request-session (raw ∷ l) none cl = send_ack-session sm_request cl refl

  put_queue_un_acked :
      (q r : UnAckQueue) (cl : Client H)
      → un_acked_of cl ≡ some q
      → un_acked_of (put_queue r cl) ≡ some r
  unfolding put_queue
  put_queue_un_acked q r cl e = ground (arith, e)

  -- An acknowledgement of `h` stanzas takes from the client's queue what it covers, and nothing else,
  -- whatever happens to the connection while the other stanzas are sent again.
  pub send_missing_stz-queue :
      (h : ℕ) (q : UnAckQueue) (cl : Client H)
      → un_acked_of cl ≡ some q
      → un_acked_of (send_missing_stz (client_sender c) h (some q) cl).1 ≡ some (acknowledge h q)
  unfolding send_missing_stz client_sender
  send_missing_stz-queue h q cl e = elim (Bool-cases (nat_beq (length q.uslice) 0)) [
    | inl n ↦ ground (arith, n, e, acknowledge_empty h q.uslice n)
    | inr n ↦
        let rest = acknowledge h q in
        let r = resend_all (client_sender c) rest.uslice (put_queue rest cl) in
        ground (
          arith,
          n,
          request-session rest.uslice r.0 r.1,
          resend_all-session rest.uslice (put_queue rest cl),
          put_queue_un_acked q rest cl e,
        )
  ]
