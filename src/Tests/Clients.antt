-- ===== src/Tests/Clients.antt =====
-- Clients and components.
use go_xmpp.Stanza.Packet.{name, sm_request}
use go_xmpp.Stanza.UnAckQueue.{acknowledge}
use go_xmpp.Tests.Fixtures.{a_message, client_ab, queue_ab, session_ab, tcp, toy_codec}
use go_xmpp.Transport.{Incoming, element}
use go_xmpp.Transport.Io.{send_with_writer}
use go_xmpp.Session.{as_error}
use go_xmpp.Router.Dispatch.{send_missing_stz}
use go_xmpp.Client.{client_sender, is_ack, send}
use go_xmpp.Stanza.UnAckQueue.Fifo.{payloads}
use go_xmpp.Client.QueueChange.{IsChanged, Step-IsChanged, receives}
use go_xmpp.Client.Unacked.{send_missing_stz-queue, send_stored, un_acked_of}
use go_xmpp.Client.Unacked.Resend.{add_written, send_missing_stz_written, with_request}
use go_xmpp.Client.Receive.{continues, receive, recv}
use go_xmpp.Client.Receive.Counts.{inbound_of, incoming_of}
use go_xmpp.Client.Receive.Laws.{IsStanza, receive_inbound, recv_ends}
use go_xmpp.Prelude.{List, [], arith, none, refl, some, ◌++◌, ◌+◌, ◌∷◌, ◌≡◌, ◌≢◌, ◌⊎◌}

abbrev message_next : List Incoming
message_next = element a_message ∷ []

send_missing_stz_written_example :
    ((send_missing_stz (client_sender toy_codec) 1 (some queue_ab) (client_ab [])).0 ≡ none)
    × ((send_missing_stz (client_sender toy_codec) 1 (some queue_ab) (client_ab [])).1.transport
        ≡ some (
            add_written
              (with_request (name sm_request) (payloads (some (acknowledge 1 queue_ab))))
              (tcp [])))
send_missing_stz_written_example =
    send_missing_stz_written toy_codec 1 queue_ab (client_ab []) session_ab (tcp [])
      (name sm_request) refl refl (refl, refl, refl) refl

send_missing_stz-queue_example :
    un_acked_of (send_missing_stz (client_sender toy_codec) 1 (some queue_ab) (client_ab [])).1
    ≡ some (acknowledge 1 queue_ab)
send_missing_stz-queue_example = send_missing_stz-queue toy_codec 1 queue_ab (client_ab []) refl

send_stored_example :
    (payloads (un_acked_of (send toy_codec a_message (client_ab [])).1)
      ≡ payloads (some queue_ab) ++ (name a_message) ∷ [])
    × ((send toy_codec a_message (client_ab [])).0
        ≡ as_error (send_with_writer (name a_message) (tcp [])).0)
    × ((send toy_codec a_message (client_ab [])).1.transport
        ≡ some (send_with_writer (name a_message) (tcp [])).1)
unfolding is_ack
send_stored_example =
    send_stored toy_codec a_message (name a_message) (client_ab []) session_ab (tcp []) queue_ab
      refl refl refl refl refl refl

Step-IsChanged_example :
    IsChanged
      (un_acked_of (client_ab message_next))
      (un_acked_of ((receive toy_codec (client_ab message_next)).1))
Step-IsChanged_example =
    Step-IsChanged toy_codec (client_ab message_next)
      ((receive toy_codec (client_ab message_next)).1) (receives (client_ab message_next))

recv_ends_example : (recv toy_codec 2 (client_ab message_next)).0 ≢ continues
recv_ends_example = recv_ends toy_codec 2 (client_ab message_next) (omega arith)

receive_inbound_example :
    (incoming_of (receive toy_codec (client_ab message_next)).1 ≡ [])
    × ((IsStanza a_message
          × (inbound_of (receive toy_codec (client_ab message_next)).1
              ≡ session_ab.sm_state.inbound + 1))
        ⊎ ((¬ IsStanza a_message)
            × (inbound_of (receive toy_codec (client_ab message_next)).1
                ≡ session_ab.sm_state.inbound)))
receive_inbound_example =
    receive_inbound toy_codec (client_ab message_next) session_ab (tcp message_next) a_message []
      refl refl refl
