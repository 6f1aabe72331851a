-- ===== src/Client/Receive.antt =====
-- client.go: the receiver. One call of `receive` is one turn of the loop of recv.
pub mod Counts
pub mod Laws
use go_xmpp.Text.{str}
use go_xmpp.Transport.Io.{next_packet}
use go_xmpp.Result.{GoError, Result, err, ok, text_error}
use go_xmpp.Stanza.Packet.{
  Packet, StreamError, iq, message, presence, sm_answer, sm_request, stream_close, stream_error,
}
use go_xmpp.Session.{Codec, Session}
use go_xmpp.Router.Dispatch.{route}
use go_xmpp.EventManager.{disconnected_event, stream_error_event}
use go_xmpp.Client.{Client, client_sender, send, tell}
use go_xmpp.Client.Connect.{disconnect}
use go_xmpp.Prelude.{Option, [], none, some, suc, zero, ℕ, ◌++◌, ◌+◌, ◌∷◌}

-- Whether the loop goes on; a nil pointer stops the program.
pub data Turn : Type 0 where
  continues stops crashes : Turn

-- The stanzas that Inbound counts.
unfoldable pub counts : Packet → ℕ
counts (message m) = 1
counts (presence p) = 1
counts (iq q) = 1
counts _ = 0

module _ {H : Type 0} where
  report : GoError → Client H → Client H
  report e cl = record cl { errors = cl.errors ++ e ∷ [] }

  spawn : Packet → Client H → Client H
  spawn p cl = record cl { spawned = cl.spawned ++ p ∷ [] }

  count_inbound : ℕ → Session → Client H → Client H
  count_inbound n s cl = record cl {
    session = some (record s { sm_state = record s.sm_state { inbound = s.sm_state.inbound + n } });
  }

module _ {H : Type 0} (c : Codec) where
  -- c.router.route(c, val), called in the loop itself.
  unfoldable pub route_now : Packet → Client H → Client H
  unfolding route client_sender
  route_now p cl =
      let (r, cl', fx) = route (client_sender c) p cl.router cl in
      record cl' { router = r; effects = cl'.effects ++ fx }

  answered_request : Option GoError × Client H → Turn × Client H
  unfolding report
  answered_request (none, cl) = (continues, cl)
  answered_request (some e, cl) = (stops, report e cl)

  stream_failed : StreamError → Client H → Client H
  unfolding route_now tell report disconnect spawn
  stream_failed e cl = spawn (stream_error e) (
      disconnect (
        report (text_error (str "stream error: " ++ e.error.local))
          (tell (stream_error_event e.error.local) (route_now (stream_error e) cl))))

  unfoldable pub on_packet : Session → Packet → Client H → Turn × Client H
  unfolding stream_failed answered_request send route_now tell counts count_inbound spawn
  on_packet s (stream_error e) cl = (continues, stream_failed e cl)
  on_packet s sm_request cl = answered_request (send c (sm_answer s.sm_state.inbound) cl)
  on_packet s (sm_answer h) cl = (continues, route_now (sm_answer h) cl)
  on_packet s stream_close cl = (stops, tell disconnected_event cl)
  on_packet s p cl = (continues, spawn p (count_inbound (counts p) s cl))

  unfoldable pub on_read : Session → Result Packet → Client H → Turn × Client H
  unfolding on_packet report tell
  on_read s (err e) cl = (stops, tell disconnected_event (report e cl))
  on_read s (ok p) cl = on_packet s p cl

  -- The receiver runs once there is a session.
  unfoldable pub receive : Client H → Turn × Client H
  unfolding next_packet on_read
  receive cl = elim cl.transport [
    | none ↦ (crashes, cl)
    | some t ↦ elim cl.session [
      | none ↦ (crashes, cl)
      | some s ↦ let (r, t') = next_packet t in on_read s r (record cl { transport = some t' })
    ]
  ]

  -- recv, for at most `fuel` turns: each turn reads one element, so that as many turns as there are
  -- elements to come, and one more, are enough.
  unfoldable pub recv : ℕ → Client H → Turn × Client H
  unfolding receive
  recv zero cl = (continues, cl)
  recv (suc fuel) cl =
      let (turn, cl') = receive cl in
      let rest = recv fuel cl' in
      elim turn [ continues ↦ rest | stops ↦ (stops, cl') | crashes ↦ (crashes, cl') ]
