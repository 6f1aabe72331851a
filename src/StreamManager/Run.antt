-- ===== src/StreamManager/Run.antt =====
-- stream_manager.go: Run, Stop and connect. Run is taken to the point where it returns an error or waits
-- for its WaitGroup; the event handler runs besides (handler of StreamManager.antt).
use go_xmpp.Text.{str}
use go_xmpp.Result.{GoError, text_error}
use go_xmpp.StreamManager.{ConnState, disconnected}
use go_xmpp.Prelude.{
  Bool, Option, arith, false, if◌then◌else◌, none, some, suc, true, zero, ℕ, ◌+◌, ◌-◌, ◌≡◌,
}

-- The field client: nil, a *Client in a state of its connection, or another implementation, as a
-- *Component.
pub data StreamClient : Type 0 where
  no_client : StreamClient
  a_client : ConnState → StreamClient
  other_client : StreamClient

-- The manager: `waiting` is the counter of the WaitGroup; `has_handler` tells whether the client has the
-- manager's handler. The calls of Connect, Disconnect and PostConnect are counted.
pub record StreamManager : Type 0 where
  pub client : StreamClient
  pub has_post_connect : Bool
  pub has_handler : Bool
  pub waiting : ℕ
  pub connects : ℕ
  pub disconnects : ℕ
  pub post_connects : ℕ

unfoldable pub new_stream_manager : StreamClient → Bool → StreamManager
new_stream_manager c pc = record {
  client = c;
  has_post_connect = pc;
  has_handler = false;
  waiting = 0;
  connects = 0;
  disconnects = 0;
  post_connects = 0;
}

abbrev pub not_disconnected : GoError
not_disconnected = text_error (str "client is not disconnected")

abbrev pub post_connect : StreamManager → StreamManager
post_connect m = if m.has_post_connect then record m { post_connects = m.post_connects + 1 } else m

abbrev pub connected_by : Option GoError → StreamManager → Option GoError × StreamManager
connected_by (some e) m = (some e, m)
connected_by none m = (none, post_connect m)

-- connect; `result` is what Client.Connect returns, nil as `none`.
unfoldable pub connect : Option GoError → StreamManager → Option GoError × StreamManager
connect result m = elim m.client [
  | no_client ↦ (some not_disconnected, m)
  | other_client ↦ (some not_disconnected, m)
  | a_client disconnected ↦ connected_by result (record m { connects = m.connects + 1 })
  | a_client _ ↦ (some not_disconnected, m)
]

pub data Running : Type 0 where
  returns : GoError → Running
  waits : Running

abbrev pub run_connected : Option GoError × StreamManager → Running × StreamManager
run_connected (some e, m) = (returns e, record m { waiting = m.waiting - 1 })
run_connected (none, m) = (waits, m)

unfoldable pub run : Option GoError → StreamManager → Running × StreamManager
unfolding connect
run result m = elim m.client [
  | no_client ↦ (returns (text_error (str "missing stream client")), m)
  | _ ↦ run_connected (connect result (record m { has_handler = true; waiting = m.waiting + 1 }))
]

-- Stop: a nil client and a counter below 0 are panics, here `none`.
unfoldable pub stop : StreamManager → Option StreamManager
stop m = elim m.client [
  | no_client ↦ none
  | _ ↦ elim m.waiting [
    | zero ↦ none
    | suc n ↦ some (record m { has_handler = false; disconnects = m.disconnects + 1; waiting = n })
  ]
]

-- Run on a manager whose client is no *Client, such as a component, returns an error without a call of
-- Connect, and leaves the counter as it was.
pub run_other :
    (result : Option GoError) (m : StreamManager)
    → m.client ≡ other_client
    → ((run result m).0 ≡ returns not_disconnected)
      × ((run result m).1.connects ≡ m.connects)
      × ((run result m).1.waiting ≡ m.waiting)
unfolding run connect
run_other result m h = ground (arith, h)

-- When Run waits, the client was a disconnected *Client that Connect has connected, it has the handler,
-- and PostConnect was called if there is one; Stop then takes the counter back to where it was before
-- Run, so that Run returns, and takes the handler away, so that the disconnection is not answered by a
-- reconnection.
pub run-stop :
    (result : Option GoError) (m m' : StreamManager)
    → run result m ≡ (waits, m')
    → (m.client ≡ a_client disconnected)
      × (result ≡ none)
      × (m'.connects ≡ m.connects + 1)
      × (m'.has_handler ≡ true)
      × (m'.post_connects ≡ (if m.has_post_connect then m.post_connects + 1 else m.post_connects))
      × (stop m'
          ≡ some (record m' {
            has_handler = false;
            disconnects = m.disconnects + 1;
            waiting = m.waiting;
          }))
unfolding run connect stop
run-stop result m m' e = ground (arith, e)
