-- ===== src/Session.antt =====
-- session.go: what a session holds, and the steps that negotiate it. Each step works on the session,
-- the transport and the configuration, since the server's answer may change the last.
pub mod Keeps
pub mod Queue
pub mod Resume
pub mod Bind
pub mod Negotiate
use go_xmpp.Transport.{
  Incoming, Transport, broken, element, proceed, read, start_stream, start_tls, write,
}
use go_xmpp.Text.{GoString, str}
use go_xmpp.Stanza.Jid.{Jid}
use go_xmpp.Result.{GoError, Result, err, error_text, ok, text_error}
use go_xmpp.Stanza.Packet.{Packet, StreamFeatures, does_start_tls, no_name, stream_features}
use go_xmpp.Stanza.UnAckQueue.{UnAckQueue}
use go_xmpp.Auth.{Credential, auth_sasl}
use go_xmpp.Auth.Scram.{Crypto}
use go_xmpp.Prelude.{Bool, Option, [], false, if◌then◌else◌, none, not, some, true, ℕ, ◌++◌}

-- SMState of client.go
pub record SmState : Type 0 where
  pub id : GoString
  pub inbound : ℕ
  pub preferred_recon_addr : GoString
  pub stream_error_group : Option GoString
  pub un_ack_queue : Option UnAckQueue

abbrev pub no_sm_state : SmState
no_sm_state = record {
  id = [];
  inbound = 0;
  preferred_recon_addr = [];
  stream_error_group = none;
  un_ack_queue = none;
}

abbrev pub no_features : StreamFeatures
no_features = record {
  start_tls = no_name;
  mechanism = [];
  sasl_channel_binding = record { xml_name = no_name; channel_binding = [] };
  stream_management = no_name;
  session = record { xml_name = no_name; optional = false };
}

pub record Session : Type 0 where
  pub bind_jid : GoString
  pub stream_id : GoString
  pub resumed : Bool
  pub sm_state : SmState
  pub features : StreamFeatures
  pub tls_enabled : Bool
  pub last_packet_id : ℕ
  pub failure : Option GoError

-- new(Session), with the stream management state
abbrev pub new : SmState → Session
new state = record {
  bind_jid = [];
  stream_id = [];
  resumed = false;
  sm_state = state;
  features = no_features;
  tls_enabled = false;
  last_packet_id = 0;
  failure = none;
}

-- config.go: what a session reads of Config.
pub record Config : Type 0 where
  pub parsed_jid : Jid
  pub credential : Credential
  pub insecure : Bool
  pub stream_management_enable : Bool
  pub stream_management_resume : Bool

-- Code outside the repository: the SASL computations, and the texts that encoding/xml makes of the
-- packets, of SMEnable with its attribute resume, and of SMResume with its id and count.
pub record Codec : Type 0 where
  pub crypto : Crypto
  pub marshal : Packet → Result GoString
  pub marshal_enable : Bool → Result GoString
  pub marshal_resume : GoString → ℕ → Result GoString

pub record Negotiation : Type 0 where
  pub session : Session
  pub transport : Transport
  pub config : Config

-- s.failure = err
unfoldable pub set_err : Option GoError → Negotiation → Negotiation
set_err e n = record n { session = record n.session { failure = e } }

-- What Decode makes of the next element, if stream features are expected.
as_features : Incoming → StreamFeatures × Option GoError
as_features (element (stream_features f)) = (f, none)
as_features (broken e) =
    (no_features, some (text_error (str "stream open decode features: " ++ error_text e)))
as_features _ = (no_features, some (text_error (str "stream open decode features: ")))

-- init: extractStreamFeatures sets s.err too.
unfoldable pub init : Negotiation → Negotiation
unfolding as_features read
init n =
    let (i, t) = read n.transport in
    let (f, e) = as_features i in
    record n { session = record n.session { features = f; failure = e }; transport = t }

after_stream : Result GoString → Negotiation → Negotiation
unfolding init
after_stream (err e) n = record n {
  session = record n.session { stream_id = []; failure = some e };
}
after_stream (ok id) n =
    init (record n { session = record n.session { stream_id = id; failure = none } })

unfoldable pub reset : Negotiation → Negotiation
unfolding after_stream
reset n = let (r, t) = start_stream n.transport in after_stream r (record n { transport = t })

-- The step is skipped if an earlier one has failed: `if s.err != nil { return }`.
abbrev pub unless_failed : (Negotiation → Negotiation) → Negotiation → Negotiation
unless_failed step n = elim n.session.failure [ none ↦ step n | some e ↦ n ]

proceeded : Incoming → Option GoError
proceeded proceed = none
proceeded (broken e) = some (text_error (str "expecting starttls proceed: " ++ error_text e))
proceeded _ = some (text_error (str "expecting starttls proceed: "))

secure : Option GoError × Transport → Negotiation → Negotiation
secure (none, t) n = record n {
  session = record n.session { failure = none; tls_enabled = true };
  transport = t;
}
secure (some e, t) n = record n { session = record n.session { failure = some e }; transport = t }

upgrade : Incoming × Transport → Negotiation → Negotiation
unfolding secure proceeded
upgrade (i, t) n = elim (proceeded i) [
  | some e ↦ record n { session = record n.session { failure = some e }; transport = t }
  | none ↦ secure (start_tls t) n
]

start_tls_supported : Negotiation → Negotiation
unfolding upgrade set_err
start_tls_supported n =
    if not n.transport.does_start_tls
    then (if n.config.insecure
        then n
        else set_err (some (text_error (str "transport does not support starttls"))) n)
    else if does_start_tls n.session.features
    then upgrade
        (read (write (str "<starttls xmlns='urn:ietf:params:xml:ns:xmpp-tls'/>") n.transport).1) n
    else if n.config.insecure
    then n
    else set_err (some (text_error (str "XMPP server does not advertise support for starttls"))) n

-- startTlsIfSupported
unfoldable pub start_tls_if_supported : Negotiation → Negotiation
unfolding start_tls_supported
start_tls_if_supported = unless_failed start_tls_supported

unfoldable pub as_error : Result (Unit {0}) → Option GoError
as_error (ok u) = none
as_error (err e) = some e

module _ (c : Codec) where
  authenticate : Negotiation → Negotiation
  unfolding as_error
  authenticate n =
      let (r, t) =
        auth_sasl c.crypto n.session.features n.config.parsed_jid.node n.config.credential
          n.transport in
      record n { session = record n.session { failure = as_error r }; transport = t }

  unfoldable pub auth : Negotiation → Negotiation
  unfolding authenticate
  auth = unless_failed authenticate
