-- ===== src/Tests/Sessions.antt =====
-- Sessions: negotiation and resumption.
use go_xmpp.Text.{is_blank, is_space, str, text_eq}
use go_xmpp.Stanza.Packet.{
  Iq, SmResumed, bind, does_start_tls, does_stream_management, iq, is_optional, name, no_name,
  sasl_success, sm_enabled, sm_failed, sm_resumed, stream_features,
}
use go_xmpp.Stanza.UnAckQueue.{next_id, push}
use go_xmpp.Tests.Fixtures.{
  a_message, catch_all, client_with, session_ab, sm_feature, strict_config, tcp, toy_codec,
}
use go_xmpp.Transport.{Incoming, Transport, connect, element, opened, proceed, start_tls}
use go_xmpp.Transport.Io.{◌>>=◌}
use go_xmpp.Auth.{auth_plain, auth_sasl, is_supported_mech, matching_mech}
use go_xmpp.Text.Decimal.{hex}
use go_xmpp.Session.{Negotiation, no_features, no_sm_state}
use go_xmpp.Session.Resume.{resume}
use go_xmpp.Session.Resume.Laws.{Resumed, may_resume, request_to_resume, resume_false, resume_true}
use go_xmpp.Session.Negotiate.{new_session, session_of, tls_step}
use go_xmpp.Session.Negotiate.Laws.{NotClear, new_session_secure}
use go_xmpp.Client.{Client, is_ack, send, store}
use go_xmpp.Client.Connect.Laws.{connect_session_secure, reconnect_skips_tls}
use go_xmpp.Client.Connect.{connect_client, connect_session}
use go_xmpp.Session.Queue.{IsRenewed}
use go_xmpp.Session.Negotiate.Queue.{new_session-IsRenewed, queue_made}
use go_xmpp.Client.QueueChange.{sends}
use go_xmpp.Client.Lifetime.{Life-IsConsecutive, connects, idle, then_event, uses}
use go_xmpp.Client.Unacked.{un_acked_of}
use go_xmpp.Stanza.UnAckQueue.Ids.{IsConsecutive}
use go_xmpp.Prelude.{List, [], none, refl, some, true, ℕ, ◌∷◌, ◌≡◌, ◌⊎◌}

-- The server answers the request to resume with the count 1.
abbrev resumed_next : SmResumed
resumed_next = record { prev_id = b'x' ∷ []; h = some 1 }

abbrev negotiation : List Incoming → Negotiation
negotiation script = record { session = session_ab; transport = tcp script; config = strict_config }

abbrev bound : Iq
bound = record {
  attrs = record { kind = []; id = []; from = []; to = []; lang = [] };
  payload = some (bind no_name [] (b'z' ∷ []));
  error = none;
  any = none;
}

-- What a server sends to a client that logs in over TLS.
abbrev login : List Incoming
login =
    opened []
    ∷ element (
        stream_features (record sm_feature {
          start_tls = record {
            space = str "urn:ietf:params:xml:ns:xmpp-tls";
            local = str "starttls";
          };
        }))
    ∷ proceed
    ∷ opened []
    ∷ element (stream_features sm_feature)
    ∷ element (sasl_success [])
    ∷ opened []
    ∷ element (stream_features no_features)
    ∷ element (iq bound)
    ∷ []

abbrev newcomer : Client ℕ
newcomer = client_with none (tcp login) strict_config catch_all

-- The same login, where the server offers stream management after it, and enables it.
abbrev login_with_sm : List Incoming
login_with_sm =
    opened []
    ∷ element (
        stream_features (record sm_feature {
          start_tls = record {
            space = str "urn:ietf:params:xml:ns:xmpp-tls";
            local = str "starttls";
          };
        }))
    ∷ proceed
    ∷ opened []
    ∷ element (stream_features sm_feature)
    ∷ element (sasl_success [])
    ∷ opened []
    ∷ element (stream_features sm_feature)
    ∷ element (iq bound)
    ∷ element (sm_enabled (record { id = b'x' ∷ []; location = []; resume = str "true"; max = 0 }))
    ∷ []

abbrev subscriber : Client ℕ
subscriber = client_with none (tcp login_with_sm) strict_config catch_all

-- The message that is sent after this login is in the queue.
subscriber_queue :
    un_acked_of (send toy_codec a_message ((connect_client toy_codec subscriber).1)).1
    ≡ some (record { uslice = record { id = 1; stz = name a_message } ∷ [] })
unfolding connect_client send connect_session does_start_tls does_stream_management
    is_supported_mech matching_mech text_eq str is_blank is_space is_optional start_tls auth_sasl
    auth_plain ◌>>=◌ hex store push is_ack next_id
subscriber_queue = refl

abbrev secured_once : Negotiation
secured_once = record (negotiation []) { transport = record (tcp []) { is_secure = true } }

new_session_secure_example :
    NotClear (tcp []) (new_session toy_codec none no_sm_state (tcp []) strict_config)
new_session_secure_example =
    new_session_secure toy_codec none no_sm_state (tcp []) strict_config refl

Life-IsConsecutive_example :
    IsConsecutive
      (un_acked_of ((send toy_codec a_message ((connect_client toy_codec subscriber).1)).1))
Life-IsConsecutive_example =
    Life-IsConsecutive toy_codec subscriber
      ((send toy_codec a_message ((connect_client toy_codec subscriber).1)).1)
      (then_event (connects subscriber) (
        then_event (uses (sends a_message ((connect_client toy_codec subscriber).1)))
          (idle ((send toy_codec a_message ((connect_client toy_codec subscriber).1)).1))))
      refl

resume_true_example :
    (may_resume (negotiation (element (sm_resumed resumed_next) ∷ [])) ≡ true)
    × Resumed
        (request_to_resume toy_codec (negotiation (element (sm_resumed resumed_next) ∷ []))).1
        (negotiation (element (sm_resumed resumed_next) ∷ []))
        ((resume toy_codec (negotiation (element (sm_resumed resumed_next) ∷ []))).1)
unfolding resume does_stream_management str text_eq
resume_true_example =
    resume_true toy_codec (negotiation (element (sm_resumed resumed_next) ∷ []))
      ((resume toy_codec (negotiation (element (sm_resumed resumed_next) ∷ []))).1) refl

resume_false_example :
    ((((resume toy_codec (negotiation (element (sm_failed none) ∷ []))).1).session
        ≡ (negotiation (element (sm_failed none) ∷ [])).session)
      × (((resume toy_codec (negotiation (element (sm_failed none) ∷ []))).1).transport.incoming
          ≡ (negotiation (element (sm_failed none) ∷ [])).transport.incoming))
    ⊎ (((resume toy_codec (negotiation (element (sm_failed none) ∷ []))).1).session.sm_state
        ≡ no_sm_state)
unfolding resume does_stream_management str text_eq
resume_false_example =
    resume_false toy_codec (negotiation (element (sm_failed none) ∷ []))
      ((resume toy_codec (negotiation (element (sm_failed none) ∷ []))).1) refl

new_session-IsRenewed_example :
    IsRenewed
      (session_of none no_sm_state).sm_state.un_ack_queue
      (queue_made (new_session toy_codec none no_sm_state (tcp []) strict_config))
new_session-IsRenewed_example =
    new_session-IsRenewed toy_codec none no_sm_state (tcp []) strict_config

connect_session_secure_example :
    (t : Transport) × ((connect_session toy_codec newcomer).1.transport ≡ some t)
    × (t.is_secure ≡ true)
unfolding connect_session does_start_tls does_stream_management is_supported_mech matching_mech
    text_eq str is_blank is_space is_optional start_tls auth_sasl auth_plain ◌>>=◌ hex
connect_session_secure_example = connect_session_secure toy_codec newcomer refl refl

reconnect_skips_tls_example :
    tls_step (record secured_once { transport = (connect secured_once.transport).1 })
    ≡ record secured_once { transport = (connect secured_once.transport).1 }
reconnect_skips_tls_example = reconnect_skips_tls secured_once refl
