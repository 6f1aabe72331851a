-- ===== src/Component/Receive.antt =====
-- component.go: the receiver. One call of `receive` is one turn of the loop of recv.
pub mod Laws
use go_xmpp.Text.{str}
use go_xmpp.Transport.{Incoming, Transport, element}
use go_xmpp.Transport.Io.{next_packet}
use go_xmpp.Result.{GoError, Result, err, ok, text_error}
use go_xmpp.Stanza.Packet.{Packet, StreamError, stream_close, stream_error}
use go_xmpp.StreamManager.{ConnState, disconnected}
use go_xmpp.EventManager.{notify, state_event, stream_error_event}
use go_xmpp.Session.{Codec}
use go_xmpp.Router.{match_routes}
use go_xmpp.Router.Dispatch.{route, run_matched}
use go_xmpp.Component.{
  Component, Going, component_sender, disconnect, goes_on, inform, returns, route_packet,
}
use go_xmpp.Prelude.{List, Option, Option-cases, [], arith, inl, inr, none, some, ◌++◌, ◌∷◌, ◌≡◌}

module _ {H : Type 0} where
  report : GoError → Component H → Component H
  report e cm = record cm { errors = cm.errors ++ e ∷ [] }

module _ {H : Type 0} (c : Codec) where
  -- A stream error is routed, told, and answered by closing the stream.
  unfoldable pub stream_failed : StreamError → Component H → Component H
  unfolding route_packet inform report disconnect
  stream_failed e cm = disconnect (
      report (text_error (str "stream error: " ++ e.error.local))
        (inform (stream_error_event e.error.local) (route_packet c (stream_error e) cm)))

  on_packet : Packet → Component H → Going × Component H
  unfolding stream_failed route_packet
  on_packet (stream_error e) cm = (goes_on, route_packet c (stream_error e) (stream_failed e cm))
  on_packet stream_close cm = (returns, cm)
  on_packet p cm = (goes_on, route_packet c p cm)

  on_read : Result Packet → Component H → Going × Component H
  unfolding on_packet inform report
  on_read (err e) cm = (returns, report e (inform (state_event disconnected) cm))
  on_read (ok p) cm = on_packet p cm

  -- A nil transport stops the program; a component that was connected has one.
  unfoldable pub receive : Component H → Option (Going × Component H)
  unfolding next_packet on_read
  receive cm = elim cm.transport [
    | none ↦ none
    | some t ↦ let (r, t') = next_packet t in some (on_read r (record cm { transport = some t' }))
  ]
