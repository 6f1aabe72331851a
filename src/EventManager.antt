-- ===== src/EventManager.antt =====
-- client.go: EventManager. Whether it has a handler, and what the handler was called with.
use go_xmpp.Text.{GoString}
use go_xmpp.StreamManager.{ConnState, Event, disconnected}
use go_xmpp.Prelude.{Bool, List, [], if◌then◌else◌, ◌++◌, ◌∷◌}

pub record EventManager : Type 0 where
  pub current_state : ConnState
  pub has_handler : Bool
  pub events : List Event

-- The state is set, and the handler called if there is one.
unfoldable pub notify : Event → EventManager → EventManager
notify e em =
    if em.has_handler
    then record em { current_state = e.state; events = em.events ++ e ∷ [] }
    else record em { current_state = e.state }

-- The events of updateState, disconnected and streamError.
abbrev pub state_event : ConnState → Event
state_event state = record { state = state; stream_error = [] }

abbrev pub disconnected_event : Event
disconnected_event = state_event disconnected

abbrev pub stream_error_event : GoString → Event
stream_error_event text = record { state = ConnState.stream_error; stream_error = text }
