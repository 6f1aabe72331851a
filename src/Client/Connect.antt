-- ===== src/Client/Connect.antt =====
-- client.go: connect, Connect and Resume, Disconnect, and what follows a session's setup. The
-- goroutine that waits for the server's stream close after a failed negotiation is not modelled.
pub mod Laws
pub mod Queue
use go_xmpp.Text.{GoString, str}
use go_xmpp.Transport.{Transport, close, connect}
use go_xmpp.Result.{GoError, Result, err, ok, panic}
use go_xmpp.StreamManager.{resumed, resuming, session_established}
use go_xmpp.Session.{Codec, Session, no_sm_state}
use go_xmpp.Session.Negotiate.{Made, new_session}
use go_xmpp.EventManager.{state_event}
use go_xmpp.Client.{Client, tell, write_data}
use go_xmpp.Prelude.{Bool, Option, false, if◌then◌else◌, none, some, ◌+◌}

abbrev initial_presence : GoString
initial_presence = str "<presence/>"

-- A hook that is there is called, and its error returned.
run_hook : Option (Option GoError) → Option GoError
run_hook none = none
run_hook (some e) = e

was_resumed : Option Session → Bool
was_resumed none = false
was_resumed (some s) = s.resumed

module _ {H : Type 0} where
  -- Disconnect: Transport.Close
  unfoldable pub disconnect : Client H → Client H
  unfolding close
  disconnect cl = elim cl.transport [
    | none ↦ cl
    | some t ↦ record cl { transport = some (close t) }
  ]

  -- The keepalive and the receiver.
  start_runtime : Client H → Client H
  start_runtime cl = record cl { runtimes = cl.runtimes + 1 }

  first_presence : Client H → Option GoError × Client H
  unfolding write_data
  first_presence cl = elim cl.transport [
    | none ↦ (some panic, cl)
    | some t ↦ write_data initial_presence t cl
  ]

  then_hook : Option GoError × Client H → Option GoError × Client H
  unfolding run_hook
  then_hook (some e, cl) = (some e, cl)
  then_hook (none, cl) = (run_hook cl.post_connect_hook, cl)

  -- postSessionSetup
  unfoldable pub post_session_setup : Client H → Option GoError × Client H
  unfolding was_resumed run_hook first_presence then_hook
  post_session_setup cl =
      if was_resumed cl.session
      then (run_hook cl.post_resume_hook, cl)
      else then_hook (first_presence cl)

  take_made : GoString → Made → Client H → Option GoError × Client H
  unfolding disconnect tell
  take_made id m cl =
      let cl' = record cl {
        session = m.session;
        transport = some m.transport;
        config = m.config;
      } in
      elim m.error [
        | some e ↦ (some e, disconnect cl')
        | none ↦ elim m.session [
          | none ↦ (some panic, cl')
          | some s ↦ (
            none,
            tell (state_event session_established)
                (record cl' { session = some (record s { stream_id = id }) }),
          )
        ]
      ]

  after_setup : Option GoError × Client H → Option GoError × Client H
  unfolding start_runtime
  after_setup (some e, cl) = (some e, cl)
  after_setup (none, cl) = (none, start_runtime cl)

  after_connect : Option GoError × Client H → Option GoError × Client H
  unfolding post_session_setup after_setup
  after_connect (some e, cl) = (some e, cl)
  after_connect (none, cl) = after_setup (post_session_setup cl)

module _ {H : Type 0} (c : Codec) where
  dialed : Result GoString × Transport → Client H → Option GoError × Client H
  unfolding new_session take_made
  dialed (err e, t) cl = (some e, record cl { transport = some t })
  dialed (ok id, t) cl = take_made id (new_session c cl.session no_sm_state t cl.config) cl

  -- The private method connect: the TCP connection, then the session.
  unfoldable pub connect_session : Client H → Option GoError × Client H
  unfolding connect dialed
  connect_session cl = elim cl.transport [
    | none ↦ (some panic, cl)
    | some t ↦ dialed (connect t) cl
  ]

  -- Connect
  unfoldable pub connect_client : Client H → Option GoError × Client H
  unfolding connect_session after_connect
  connect_client cl = after_connect (connect_session cl)

  -- Resume
  unfoldable pub resume_client : Client H → Option GoError × Client H
  unfolding connect_session after_connect tell
  resume_client cl = after_connect (connect_session (tell (state_event resuming) cl))
