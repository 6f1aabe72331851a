-- ===== src/Client.antt =====
-- client.go: what a client holds, its events, and Send, SendRaw and SendIQ. The handler of
-- events, the handler of errors and the goroutines that are started are recorded, not run.
pub mod Unacked
pub mod Connect
pub mod Receive
pub mod QueueChange
pub mod Lifetime
pub mod Setup
use go_xmpp.Text.{GoString, str, text_eq_instance}
use go_xmpp.Transport.{Transport}
use go_xmpp.Transport.Io.{send_with_writer}
use go_xmpp.Result.{GoError, Result, err, error_text, ok, panic, text_error}
use go_xmpp.Stanza.Packet.{Iq, Packet, iq, name, sm_answer, sm_request, stream_error}
use go_xmpp.Stanza.UnAckQueue.{UnAckQueue, push, un_acked}
use go_xmpp.StreamManager.{ConnState, Event, disconnected}
use go_xmpp.EventManager.{EventManager, notify}
use go_xmpp.Session.{Codec, Config, Session, SmState, as_error}
use go_xmpp.Router.{Router, new_iq_result_route, packet, remove_iq_result_route}
use go_xmpp.Router.Dispatch.{Acks, Effect, Sender, nil_session, queue}
use go_xmpp.Prelude.{
  Bool, List, Option, [], false, if◌then◌else◌, nat_eq, none, not, some, true, ℕ, ◌&&◌, ◌++◌, ◌==◌,
  ◌∷◌,
}

-- The client, with the user's handlers of packets in `H`. `none` is a nil pointer.
pub record Client (H : Type 0) : Type 0 where
  pub config : Config
  pub session : Option Session
  pub transport : Option Transport
  pub router : Router H
  pub event_manager : EventManager
  -- what ErrorHandler was called with
  pub errors : List GoError
  -- the hooks, and what they return: `none` is a nil hook
  pub post_connect_hook : Option (Option GoError)
  pub post_resume_hook : Option (Option GoError)
  -- what was started: `go c.router.route(c, val)`, and the goroutines of startRuntime
  pub spawned : List Packet
  pub runtimes : ℕ
  -- what the routes that were run at once did
  pub effects : List (Effect H)

-- Requests and answers of stream management are not stored.
unfoldable pub is_ack : Packet → Bool
is_ack sm_request = true
is_ack (sm_answer h) = true
is_ack _ = false

acks_of : Option Session → Acks
acks_of none = nil_session
acks_of (some s) = queue s.sm_state.un_ack_queue

module _ {H : Type 0} where
  unfoldable pub tell : Event → Client H → Client H
  unfolding notify
  tell e cl = record cl { event_manager = notify e cl.event_manager }

  -- c.sendWithWriter(c.transport, data)
  unfoldable pub write_data : GoString → Transport → Client H → Option GoError × Client H
  unfolding send_with_writer as_error
  write_data text t cl =
      let (r, t') = send_with_writer text t in (as_error r, record cl { transport = some t' })

  set_session : SmState → Session → Client H → Client H
  set_session state s cl = record cl { session = some (record s { sm_state = state }) }

  -- A stanza is kept until the server acknowledges it, then written.
  unfoldable pub store : GoString → Session → Transport → Client H → Option GoError × Client H
  unfolding push set_session write_data
  store text s t cl = elim s.sm_state.un_ack_queue [
    | none ↦ (some (text_error (str "stream management queue is not initialized")), cl)
    | some q ↦ write_data text t (
        set_session
          (record s.sm_state {
            un_ack_queue = (push (un_acked (record { id = 0; stz = text })) (some q)).0;
          })
          s cl)
  ]

  -- `conn == nil` and `c.Session == nil`
  connected :
      (Session → Transport → Client H → Option GoError × Client H)
      → Client H
      → Option GoError × Client H
  connected f cl = elim cl.transport [
    | none ↦ (some (text_error (str "client is not connected")), cl)
    | some t ↦ elim cl.session [
      | none ↦ (some (text_error (str "client session is not established")), cl)
      | some s ↦ f s t cl
    ]
  ]

  unfoldable pub send_raw : GoString → Client H → Option GoError × Client H
  unfolding connected store write_data
  send_raw packet = connected (λ s t cl.
      if cl.config.stream_management_enable then store packet s t cl else write_data packet t cl)

  put_queue : UnAckQueue → Client H → Client H
  unfolding set_session
  put_queue q cl = elim cl.session [
    | none ↦ cl
    | some s ↦ set_session (record s.sm_state { un_ack_queue = some q }) s cl
  ]

  write_raw : GoString → Client H → Option GoError × Client H
  unfolding write_data
  write_raw text cl = elim cl.transport [ none ↦ (some panic, cl) | some t ↦ write_data text t cl ]

module _ {H : Type 0} (c : Codec) where
  marshalled : Packet → Result GoString → Session → Transport → Client H → Option GoError × Client H
  unfolding is_ack store write_data
  marshalled p (err e) s t cl =
      (some (text_error (str "cannot marshal packet " ++ error_text e)), cl)
  marshalled p (ok text) s t cl =
      if cl.config.stream_management_enable && not (is_ack p)
      then store text s t cl
      else write_data text t cl

  unfoldable pub send : Packet → Client H → Option GoError × Client H
  unfolding connected marshalled
  send p = connected (marshalled p (c.marshal p))

  unregister : GoString → ℕ → Option GoError × Client H → Result ℕ × Client H
  unfolding remove_iq_result_route
  unregister id chan (none, cl) = (ok chan, cl)
  unregister id chan (some e, cl) =
      (err e, record cl { router = remove_iq_result_route id cl.router })

  -- SendIQ, with the channel that is made: the route is there before the IQ is written.
  unfoldable pub send_iq : ℕ → Iq → Client H → Result ℕ × Client H
  unfolding send unregister new_iq_result_route
  send_iq chan q cl =
      if not (q.attrs.kind == str "set") && not (q.attrs.kind == str "get")
      then (err (text_error (str "SendIQ can only send get and set IQ stanzas")), cl)
      else unregister q.attrs.id chan
          (send (iq q) (record cl { router = new_iq_result_route q.attrs.id chan cl.router }))

  -- The client as the router's Sender.
  unfoldable pub client_sender : Sender (Client H)
  unfolding send write_raw acks_of put_queue
  client_sender = record {
    send = send;
    resend = write_raw;
    acks = λ cl. acks_of cl.session;
    set_queue = put_queue;
  }
