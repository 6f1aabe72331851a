-- ===== src/Client/Unacked/Resend.antt =====
-- What is written when stanzas are sent again.
use go_xmpp.Client.Unacked.{acknowledge_empty}
use go_xmpp.Text.{GoString}
use go_xmpp.Transport.{Transport}
use go_xmpp.Transport.Io.{send_with_writer}
use go_xmpp.Result.{ok}
use go_xmpp.Stanza.Packet.{sm_request}
use go_xmpp.Stanza.UnAckQueue.{UnAckQueue, UnAckedStz, acknowledge}
use go_xmpp.Stanza.UnAckQueue.Fifo.{payloads, texts}
use go_xmpp.Session.{Codec, Session}
use go_xmpp.Router.Dispatch.{request, resend_all, send_missing_stz}
use go_xmpp.Client.{Client, client_sender, put_queue, send, write_raw}
use go_xmpp.Prelude.{
  Bool-cases, List, [], ap, append-nil, append_assoc, arith, false, inl, inr, length, nat_beq, none,
  refl, some, true, ℕ, ◌++◌, ◌∷◌, ◌≡◌,
}

-- A connection on which every Write succeeds.
abbrev pub IsHealthy : Transport → Type 0
IsHealthy t = (t.connected ≡ true) × (t.closed ≡ false) × (t.writes ≡ [])

abbrev pub add_written : List GoString → Transport → Transport
add_written texts t = record t { written = t.written ++ texts }

-- The texts, and the request for an acknowledgement after them, if there are any.
abbrev pub with_request : GoString → List GoString → List GoString
with_request ask [] = []
with_request ask (x ∷ l) = (x ∷ l) ++ ask ∷ []

no_texts :
    (ask : GoString) (l : List UnAckedStz)
    → nat_beq (length l) 0 ≡ true
    → with_request ask (texts l) ≡ []
no_texts ask [] e = refl
no_texts ask (s ∷ l) e = absurd (ground (arith, e))

send_with_writer_healthy :
    (text : GoString) (t : Transport)
    → IsHealthy t
    → send_with_writer text t ≡ (ok tt, add_written (text ∷ []) t)
unfolding send_with_writer
send_with_writer_healthy text t h = ground (arith, h)

module _ {H : Type 0} (c : Codec) where
  write_raw_healthy :
      (text : GoString) (cl : Client H) (t : Transport)
      → cl.transport ≡ some t
      → IsHealthy t
      → write_raw text cl ≡ (none, record cl { transport = some (add_written (text ∷ []) t) })
  unfolding write_raw
  write_raw_healthy text cl t e h = ground (arith, e, send_with_writer_healthy text t h)

  resend_all_healthy :
      (l : List UnAckedStz) (cl : Client H) (t : Transport)
      → cl.transport ≡ some t
      → IsHealthy t
      → resend_all (client_sender c) l cl
        ≡ (none, record cl { transport = some (add_written (texts l) t) })
  unfolding resend_all client_sender
  resend_all_healthy [] cl t e h = ground (arith, e, append-nil t.written)
  resend_all_healthy (raw ∷ l) cl t e h =
      let t1 = add_written (raw.stz ∷ []) t in
      let cl1 : Client H = record cl { transport = some t1 } in
      ground (
        arith,
        write_raw_healthy raw.stz cl t e h,
        resend_all_healthy l cl1 t1 refl h,
        append_assoc t.written (raw.stz ∷ []) (texts l),
      )

  send_ack_healthy :
      (ask : GoString) (cl : Client H) (s : Session) (t : Transport)
      → cl.session ≡ some s
      → cl.transport ≡ some t
      → IsHealthy t
      → c.marshal sm_request ≡ ok ask
      → send c sm_request cl ≡ (none, record cl { transport = some (add_written (ask ∷ []) t) })
  unfolding send
  send_ack_healthy ask cl s t hs ht h m =
      ground (arith, hs, ht, m, send_with_writer_healthy ask t h)

  resent :
      (l : List UnAckedStz) (ask : GoString) (cl : Client H) (s : Session) (t : Transport)
      → cl.session ≡ some s
      → cl.transport ≡ some t
      → IsHealthy t
      → c.marshal sm_request ≡ ok ask
      → request (client_sender c) l (resend_all (client_sender c) l cl)
        ≡ (none, record cl { transport = some (add_written (with_request ask (texts l)) t) })
  unfolding client_sender request
  resent [] ask cl s t hs ht h m = ground (arith, resend_all_healthy [] cl t ht h)
  resent (raw ∷ l) ask cl s t hs ht h m =
      let t1 = add_written (texts (raw ∷ l)) t in
      ground (
        arith,
        resend_all_healthy (raw ∷ l) cl t ht h,
        send_ack_healthy ask (record cl { transport = some t1 }) s t1 hs refl h m,
        append_assoc t.written (texts (raw ∷ l)) (ask ∷ []),
      )

  put_queue_session :
      (q : UnAckQueue) (cl : Client H) (s : Session)
      → cl.session ≡ some s
      → put_queue q cl ≡ record cl {
        session = some (record s { sm_state = record s.sm_state { un_ack_queue = some q } });
      }
  unfolding put_queue
  put_queue_session q cl s e = ground (arith, e)

  -- On a connection that accepts every Write, exactly the stanzas that an acknowledgement leaves
  -- unacknowledged are sent again, in their order, each once; if there are any, one request for a new
  -- acknowledgement follows them.
  pub send_missing_stz_written :
      (h : ℕ) (q : UnAckQueue) (cl : Client H) (s : Session) (t : Transport) (ask : GoString)
      → cl.session ≡ some s
      → cl.transport ≡ some t
      → IsHealthy t
      → c.marshal sm_request ≡ ok ask
      → ((send_missing_stz (client_sender c) h (some q) cl).0 ≡ none)
        × ((send_missing_stz (client_sender c) h (some q) cl).1.transport
            ≡ some (add_written (with_request ask (payloads (some (acknowledge h q)))) t))
  unfolding send_missing_stz client_sender
  send_missing_stz_written h q cl s t ask hs ht healthy m =
      elim (Bool-cases (nat_beq (length q.uslice) 0)) [
        | inl n ↦ ground (
          arith,
          n,
          ht,
          append-nil t.written,
          ap (λ (k : UnAckQueue). k.uslice) (acknowledge_empty h q.uslice n),
          no_texts ask q.uslice n,
        )
        | inr n ↦
            let rest = acknowledge h q in
            let s1 = record s { sm_state = record s.sm_state { un_ack_queue = some rest } } in
            let cl1 : Client H = record cl { session = some s1 } in
            ground (
              arith,
              n,
              put_queue_session rest cl s hs,
              resent rest.uslice ask cl1 s1 t refl ht healthy m,
            )
      ]
