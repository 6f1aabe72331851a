-- ===== src/Component/Laws.antt =====
-- The component's connection: what an error of Resume says, and what a success has checked.
use go_xmpp.Text.{GoString, str}
use go_xmpp.Auth.Scram.{sha1}
use go_xmpp.Transport.{Transport, Wrote, connect, failed, write, wrote_all, wrote_zero}
use go_xmpp.Transport.Io.{next_packet}
use go_xmpp.Result.{GoError, Result, err, is_permanent, ok}
use go_xmpp.Stanza.Packet.{Packet, handshake}
use go_xmpp.StreamManager.{session_established}
use go_xmpp.EventManager.{notify}
use go_xmpp.Session.{Codec}
use go_xmpp.Component.{
  Component, authenticate, await_handshake, handshake_text, hex_encode, inform, is_websocket, judge,
  new_component_transport, resume_component, sent,
}
use go_xmpp.Prelude.{Bool-cases, arith, inl, inr, none, refl, some, true, ◌++◌, ◌+◌, ◌≡◌, ◌≢◌, ◌⊎◌}

-- The text of a handshake, and the transport that reads the reply to it.
abbrev pub asked : GoString → Transport → Wrote × Transport
asked digest t = write (str "<handshake>" ++ digest ++ str "</handshake>") t

module _ {H : Type 0} where
  judge_ok :
      (r : Result Packet) (cm : Component H)
      → (judge r cm).0 ≡ none
      → ((v : GoString) × (r ≡ ok (handshake v)))
        × ((judge r cm).1.event_manager.current_state ≡ session_established)
        × ((judge r cm).1.receivers ≡ cm.receivers + 1)
  unfolding judge inform notify
  judge_ok (err er) cm e = absurd (ground (arith, e))
  judge_ok (ok (handshake v)) cm e = ((v, refl), ground arith, refl)
  judge_ok (ok p) cm e = absurd (ground (arith, e))

  await_ok :
      (w : Wrote) (t : Transport) (cm : Component H)
      → (await_handshake (w, t) cm).0 ≡ none
      → ((f : GoError) → w ≢ failed f)
        × ((v : GoString) × ((next_packet t).0 ≡ ok (handshake v)))
        × ((await_handshake (w, t) cm).1.event_manager.current_state ≡ session_established)
        × ((await_handshake (w, t) cm).1.receivers ≡ cm.receivers + 1)
  unfolding await_handshake
  await_ok (failed er) t cm e = absurd (ground (arith, e))
  await_ok wrote_all t cm e =
      let judged =
        judge_ok (next_packet t).0 (record cm { transport = some (next_packet t).1 }) e in
      ((λ f. cc), judged.0, judged.1, judged.2)
  await_ok wrote_zero t cm e =
      let judged =
        judge_ok (next_packet t).0 (record cm { transport = some (next_packet t).1 }) e in
      ((λ f. cc), judged.0, judged.1, judged.2)

  judge_permanent :
      (r : Result Packet) (cm : Component H) (e : GoError)
      → (judge r cm).0 ≡ some e
      → is_permanent e ≡ true
  unfolding judge is_permanent
  judge_permanent r cm e q = ground (arith, q)

  await_permanent :
      (w : Wrote) (t : Transport) (cm : Component H) (e : GoError)
      → (await_handshake (w, t) cm).0 ≡ some e
      → (is_permanent e ≡ true) ⊎ ((f : GoError) × (w ≡ failed f))
  unfolding await_handshake
  await_permanent (failed f) t cm e q = inr (f, refl)
  await_permanent _ t cm e q =
      inl (judge_permanent (next_packet t).0 (record cm { transport = some (next_packet t).1 }) e q)

-- The SHA-1 of the stream's id followed by the secret, in hexadecimal.
abbrev pub digest_of : {H : Type 0} → Codec → GoString → Component H → GoString
digest_of c id cm = hex_encode (c.crypto.sum sha1 (id ++ cm.secret))

module _ {H : Type 0} (c : Codec) where
  authenticate_ok :
      (d : Result GoString) (t : Transport) (cm : Component H)
      → (authenticate c (d, t) cm).0 ≡ none
      → ((id : GoString) × (d ≡ ok id)
          × ((f : GoError) → (asked (digest_of c id cm) t).0 ≢ failed f)
          × ((v : GoString) × ((next_packet (asked (digest_of c id cm) t).1).0 ≡ ok (handshake v))))
        × ((authenticate c (d, t) cm).1.event_manager.current_state ≡ session_established)
        × ((authenticate c (d, t) cm).1.receivers ≡ cm.receivers + 1)
  unfolding authenticate handshake_text
  authenticate_ok (err er) t cm e = absurd (ground (arith, e))
  authenticate_ok (ok id) t cm e =
      let w = asked (digest_of c id cm) t in
      let (sent, reply, established, started) = await_ok w.0 w.1 cm e in
      ((id, refl, sent, reply), established, started)

  authenticate_permanent :
      (d : Result GoString) (t : Transport) (cm : Component H) (e : GoError)
      → (authenticate c (d, t) cm).0 ≡ some e
      → (is_permanent e ≡ true)
        ⊎ ((id : GoString) × (w : GoError) × (d ≡ ok id)
            × ((asked (handshake_text c id cm) t).0 ≡ failed w))
  unfolding authenticate is_permanent
  authenticate_permanent (err er) t cm e q = inl (ground (arith, q))
  authenticate_permanent (ok id) t cm e q =
      let w = asked (handshake_text c id cm) t in
      elim (await_permanent w.0 w.1 cm e q) [ inl p ↦ inl p | inr (f, r) ↦ inr (id, f, refl, r) ]

  -- Resume succeeds only if the address is not that of a WebSocket, the stream was opened, the Write of
  -- the handshake with the SHA-1 of the stream's id followed by the secret returned no error, and the
  -- server answered with a handshake; then the state is that of an established session and one
  -- receiver was started.
  pub resume_component_ok :
      (fresh : Transport) (cm : Component H)
      → (resume_component c fresh cm).0 ≡ none
      → (new_component_transport cm.address fresh ≡ ok fresh)
        × ((id : GoString) × ((connect fresh).0 ≡ ok id)
            × ((f : GoError) → (asked (digest_of c id cm) (connect fresh).1).0 ≢ failed f)
            × ((v : GoString) × ((next_packet (asked (digest_of c id cm) (connect fresh).1).1).0
                  ≡ ok (handshake v))))
        × ((resume_component c fresh cm).1.event_manager.current_state ≡ session_established)
        × ((resume_component c fresh cm).1.receivers ≡ cm.receivers + 1)
  unfolding resume_component
  resume_component_ok fresh cm e = elim (Bool-cases (is_websocket cm.address)) [
    | inl q ↦ absurd (ground (arith, q, e))
    | inr q ↦
        let (reply, established, started) =
          authenticate_ok (connect fresh).0 (connect fresh).1 cm (ground (arith, q, e)) in
        (ground (arith, q), reply, ground (arith, q, established), ground (arith, q, started))
  ]

  -- Every error of Resume is permanent, so that no reconnection is tried after it, but for one: the
  -- handshake could not be written. The errors of the transport are not excepted.
  pub resume_component_permanent :
      (fresh : Transport) (cm : Component H) (e : GoError)
      → (resume_component c fresh cm).0 ≡ some e
      → (is_permanent e ≡ true)
        ⊎ ((id : GoString) × (w : GoError) × ((connect fresh).0 ≡ ok id)
            × ((asked (handshake_text c id cm) (connect fresh).1).0 ≡ failed w))
  unfolding resume_component is_permanent
  resume_component_permanent fresh cm e q = elim (Bool-cases (is_websocket cm.address)) [
    | inl k ↦ inl (ground (arith, k, q))
    | inr k ↦ authenticate_permanent (connect fresh).0 (connect fresh).1 cm e (ground (arith, k, q))
  ]
