-- ===== src/Component.antt =====
-- component.go: a component (XEP-0114), its connection and handshake, what it sends, and its receiver.
pub mod Laws
pub mod Receive
use go_xmpp.Text.{GoString, has_prefix, str, text_eq_instance}
use go_xmpp.Text.Decimal.{hex_digit}
use go_xmpp.Transport.{Transport, Wrote, close, connect, failed, write}
use go_xmpp.Transport.Io.{next_packet, send_with_writer}
use go_xmpp.Result.{GoError, Result, err, error_text, new_conn_error, ok, text_error}
use go_xmpp.Stanza.Packet.{Iq, Packet, handshake, iq, name, stream_error}
use go_xmpp.StreamManager.{ConnState, Event, permanent_error, session_established}
use go_xmpp.EventManager.{EventManager, notify, state_event, stream_error_event}
use go_xmpp.Auth.Scram.{sha1}
use go_xmpp.Session.{Codec, as_error}
use go_xmpp.Router.{Router, new_iq_result_route, packet}
use go_xmpp.Router.Dispatch.{Effect, Sender, not_client, route}
use go_xmpp.Prelude.{
  Bool, List, Option, [], false, if◌then◌else◌, nat_eq, none, not, some, true, ℕ, ◌%◌, ◌&&◌, ◌++◌,
  ◌+◌, ◌/◌, ◌==◌, ◌||◌, ◌∷◌,
}

-- The component, with the user's handlers of packets in `H`. `none` is a nil transport.
pub record Component (H : Type 0) : Type 0 where
  pub address : GoString
  pub secret : GoString
  pub transport : Option Transport
  pub router : Router H
  pub event_manager : EventManager
  pub errors : List GoError
  -- `go c.recv()`, and what the routes did
  pub receivers : ℕ
  pub effects : List (Effect H)

abbrev is_websocket : GoString → Bool
is_websocket address = has_prefix address (str "ws:") || has_prefix address (str "wss:")

-- NewComponentTransport of transport.go: `fresh` is the TCP transport that it makes.
unfoldable pub new_component_transport : GoString → Transport → Result Transport
new_component_transport address fresh =
    if is_websocket address
    then err (
        text_error (str "components only support XMPP transport: transport protocol not supported"))
    else ok fresh

-- hex.EncodeToString
unfoldable pub hex_encode : GoString → GoString
unfolding hex_digit
hex_encode [] = []
hex_encode (b ∷ s) = hex_digit (b / 16) ∷ hex_digit (b % 16) ∷ hex_encode s

-- Whether the loop of recv goes on.
pub data Going : Type 0 where
  goes_on returns : Going

module _ {H : Type 0} where
  inform : Event → Component H → Component H
  unfolding notify
  inform e cm = record cm { event_manager = notify e cm.event_manager }

  write_data : GoString → Transport → Component H → Option GoError × Component H
  unfolding send_with_writer as_error
  write_data text t cm =
      let (r, t') = send_with_writer text t in (as_error r, record cm { transport = some t' })

  -- SendRaw
  unfoldable pub send_raw : GoString → Component H → Option GoError × Component H
  unfolding write_data
  send_raw packet cm = elim cm.transport [
    | none ↦ (some (text_error (str "component is not connected")), cm)
    | some t ↦ write_data packet t cm
  ]

  -- Disconnect
  unfoldable pub disconnect : Component H → Component H
  unfolding close
  disconnect cm = elim cm.transport [
    | none ↦ cm
    | some t ↦ record cm { transport = some (close t) }
  ]

  -- `c.updateState(state)`, and the error that is returned
  fail : ConnState → GoError → Bool → Component H → Option GoError × Component H
  unfolding inform new_conn_error
  fail state e permanent cm = (some (new_conn_error e permanent), inform (state_event state) cm)

  -- The reply to the handshake.
  judge : Result Packet → Component H → Option GoError × Component H
  unfolding fail inform new_conn_error
  judge (err e) cm = fail permanent_error e true cm
  judge (ok (stream_error e)) cm = (
    some (new_conn_error (text_error (str "handshake failed " ++ e.error.local)) true),
    inform (stream_error_event (str "conflict")) cm,
  )
  judge (ok (handshake v)) cm =
      (none, record (inform (state_event session_established) cm) { receivers = cm.receivers + 1 })
  judge (ok p) cm =
      fail permanent_error (text_error (str "expecting handshake result, got " ++ name p)) true cm

  await_handshake : Wrote × Transport → Component H → Option GoError × Component H
  unfolding fail judge next_packet
  await_handshake (failed e, t) cm =
      fail ConnState.stream_error (text_error (str "cannot send handshake " ++ error_text e)) false
        (record cm { transport = some t })
  await_handshake (_, t) cm =
      let (r, t') = next_packet t in judge r (record cm { transport = some t' })

module _ {H : Type 0} (c : Codec) where
  -- The method handshake: the SHA-1 of the stream's id and the secret, in hexadecimal.
  unfoldable pub handshake_text : GoString → Component H → GoString
  unfolding hex_encode
  handshake_text id cm = hex_encode (c.crypto.sum sha1 (id ++ cm.secret))

  authenticate : Result GoString × Transport → Component H → Option GoError × Component H
  unfolding handshake_text await_handshake fail write
  authenticate (err e, t) cm = fail permanent_error e true (record cm { transport = some t })
  authenticate (ok id, t) cm =
      await_handshake (write (str "<handshake>" ++ handshake_text id cm ++ str "</handshake>") t) cm

  -- Resume, which Connect calls too; `fresh` is the new TCP transport.
  unfoldable pub resume_component : Transport → Component H → Option GoError × Component H
  unfolding new_component_transport authenticate fail connect
  resume_component fresh cm = elim (new_component_transport cm.address fresh) [
    | err e ↦ fail permanent_error e true (record cm { transport = none })
    | ok t ↦ authenticate (connect t) cm
  ]

  sent : Option GoError × Component H → Option GoError × Component H
  sent (none, cm) = (none, cm)
  sent (some e, cm) = (some (text_error (str "cannot send packet " ++ error_text e)), cm)

  -- Send
  unfoldable pub send : Packet → Component H → Option GoError × Component H
  unfolding write_data sent
  send p cm = elim cm.transport [
    | none ↦ (some (text_error (str "component is not connected")), cm)
    | some t ↦ elim (c.marshal p) [
      | err e ↦ (some (text_error (str "cannot marshal packet " ++ error_text e)), cm)
      | ok text ↦ sent (write_data text t cm)
    ]
  ]

  register : GoString → ℕ → Option GoError × Component H → Result ℕ × Component H
  unfolding new_iq_result_route
  register id chan (some e, cm) = (err e, cm)
  register id chan (none, cm) =
      (ok chan, record cm { router = new_iq_result_route id chan cm.router })

  -- SendIQ: the route for the result is made after the IQ is sent.
  unfoldable pub send_iq : ℕ → Iq → Component H → Result ℕ × Component H
  unfolding send register
  send_iq chan q cm =
      if not (q.attrs.kind == str "set") && not (q.attrs.kind == str "get")
      then (err (text_error (str "SendIQ can only send get and set IQ stanzas")), cm)
      else register q.attrs.id chan (send (iq q) cm)

  -- The component as the router's Sender: acknowledgements are not handled.
  unfoldable pub component_sender : Sender (Component H)
  unfolding send send_raw
  component_sender = record {
    send = send;
    resend = send_raw;
    acks = λ cm. not_client;
    set_queue = λ q cm. cm;
  }

  -- c.router.route(c, val)
  unfoldable pub route_packet : Packet → Component H → Component H
  unfolding route component_sender
  route_packet p cm =
      let (r, cm', fx) = route component_sender p cm.router cm in
      record cm' { router = r; effects = cm'.effects ++ fx }
