-- ===== src/Component/Receive/Laws.antt =====
-- What a turn of the component's receiver does with a stream error.
use go_xmpp.Transport.{Incoming, Transport, element}
use go_xmpp.Stanza.Packet.{StreamError, stream_error}
use go_xmpp.StreamManager.{ConnState}
use go_xmpp.EventManager.{notify}
use go_xmpp.Session.{Codec}
use go_xmpp.Router.{match_routes}
use go_xmpp.Router.Dispatch.{route, run_matched}
use go_xmpp.Component.{Component, component_sender, disconnect, goes_on, route_packet}
use go_xmpp.Component.Receive.{receive, stream_failed}
use go_xmpp.Prelude.{List, Option-cases, arith, inl, inr, some, ◌++◌, ◌∷◌, ◌≡◌}

module _ {H : Type 0} (c : Codec) where
  route_error :
      (e : StreamError) (cm : Component H)
      → route_packet c (stream_error e) cm
        ≡ record cm { effects = cm.effects ++ run_matched cm.router (stream_error e) }
  unfolding route_packet route component_sender
  route_error e cm = elim (Option-cases (match_routes cm.router.routes (stream_error e))) [
    | inl q ↦ ground (arith, q)
    | inr (m, q) ↦ ground (arith, q)
  ]

  -- A stream error is routed twice, one after the other: the handler that matches it runs twice.
  pub component_stream_error :
      (cm : Component H) (t : Transport) (e : StreamError) (rest : List Incoming)
      → cm.transport ≡ some t
      → t.incoming ≡ element (stream_error e) ∷ rest
      → (cm' : Component H) × (receive c cm ≡ some (goes_on, cm'))
        × (cm'.effects
            ≡ (cm.effects ++ run_matched cm.router (stream_error e))
              ++ run_matched cm.router (stream_error e))
        × (cm'.event_manager.current_state ≡ ConnState.stream_error)
  unfolding receive stream_failed disconnect notify
  component_stream_error cm t e rest ht q =
      let cm1 : Component H = record cm { transport = some (record t { incoming = rest }) } in
      let cm2 = stream_failed c e cm1 in
      (
        route_packet c (stream_error e) cm2,
        ground (arith, ht, q),
        ground (arith, route_error e cm1, route_error e cm2),
        ground (arith, route_error e cm1, route_error e cm2),
      )
