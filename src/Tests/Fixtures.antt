-- ===== src/Tests/Fixtures.antt =====
-- Inputs that the tests share. The toy codec stands for the code outside the repository.
use go_xmpp.Text.{str}
use go_xmpp.Transport.{Incoming, Transport, element}
use go_xmpp.Result.{ok}
use go_xmpp.Stanza.Packet.{
  Packet, StreamError, StreamFeatures, message, name, no_err, no_nodes, node, other_payload,
  stream_error,
}
use go_xmpp.Stanza.Jid.{Jid}
use go_xmpp.Stanza.UnAckQueue.{UnAckQueue, UnAckedStz}
use go_xmpp.StreamManager.{disconnected}
use go_xmpp.Auth.{Credential}
use go_xmpp.Auth.Scram.{Crypto}
use go_xmpp.Session.{Codec, Config, Session, new, no_features, no_sm_state}
use go_xmpp.Router.{Router}
use go_xmpp.Client.{Client}
use go_xmpp.Component.{Component}
use go_xmpp.Stanza.Extensions.{Types}
use go_xmpp.Stanza.Registry.{new_registry}
use go_xmpp.Stanza.Xml.Elements.{ok-IsRefusal}
use go_xmpp.Stanza.Parser.Progress.{TypesReturnErrors}
use go_xmpp.Prelude.{List, Option, [], false, none, some, true, ℕ, ◌++◌, ◌∷◌}

abbrev pub toy_crypto : Crypto
toy_crypto = record {
  random = ok (b'n' ∷ []);
  encode64 = λ s. s;
  decode64 = λ s. ok s;
  sum = λ h s. s;
  hmac = λ h k s. k;
  pbkdf2 = λ h secret salt n. secret;
  marshal_auth = λ mech payload. ok (mech ++ payload);
  marshal_response = λ payload. ok payload;
}

abbrev pub toy_codec : Codec
toy_codec = record {
  crypto = toy_crypto;
  marshal = λ p. ok (name p);
  marshal_enable = λ resume. ok (b'e' ∷ []);
  marshal_resume = λ id h. ok (b'r' ∷ id);
}

abbrev pub tcp : List Incoming → Transport
tcp script = record {
  open_statement = b'<' ∷ [];
  insecure_skip_verify = false;
  does_start_tls = true;
  connected = true;
  closed = false;
  is_secure = false;
  written = [];
  dials = [];
  writes = [];
  handshakes = [];
  incoming = script;
}

abbrev pub juliet : Jid
juliet = record { node = b'j' ∷ []; domain = b'd' ∷ []; resource = [] }

abbrev pub plain_secret : Credential
plain_secret = record {
  secret = b's' ∷ [];
  mechanisms = (b'P' ∷ b'L' ∷ b'A' ∷ b'I' ∷ b'N' ∷ []) ∷ [];
}

abbrev pub strict_config : Config
strict_config = record {
  parsed_jid = juliet;
  credential = plain_secret;
  insecure = false;
  stream_management_enable = true;
  stream_management_resume = true;
}

abbrev pub stanza_a : UnAckedStz
stanza_a = record { id = 1; stz = b'a' ∷ [] }

abbrev pub stanza_b : UnAckedStz
stanza_b = record { id = 2; stz = b'b' ∷ [] }

abbrev pub queue_ab : UnAckQueue
queue_ab = record { uslice = stanza_a ∷ stanza_b ∷ [] }

abbrev pub sm_feature : StreamFeatures
sm_feature = record no_features {
  stream_management = record { space = str "urn:xmpp:sm:3"; local = str "sm" };
  mechanism = (b'P' ∷ b'L' ∷ b'A' ∷ b'I' ∷ b'N' ∷ []) ∷ [];
}

-- A session with two stanzas that the server has not acknowledged.
abbrev pub session_ab : Session
session_ab = record (new (record no_sm_state { id = b'x' ∷ []; un_ack_queue = some queue_ab })) {
  features = sm_feature;
}

abbrev pub client_with : Option Session → Transport → Config → Router ℕ → Client ℕ
client_with s t o r = record {
  config = o;
  session = s;
  transport = some t;
  router = r;
  event_manager = record { current_state = disconnected; has_handler = true; events = [] };
  errors = [];
  post_connect_hook = none;
  post_resume_hook = none;
  spawned = [];
  runtimes = 0;
  effects = [];
}

-- A router with one route, for every packet, whose handler has the number 7.
abbrev pub catch_all : Router ℕ
catch_all = record {
  routes = record { handler = some 7; matchers = [] } ∷ [];
  iq_result_routes = [];
}

abbrev pub client_ab : List Incoming → Client ℕ
client_ab script = client_with (some session_ab) (tcp script) strict_config catch_all

abbrev pub a_message : Packet
a_message = message (record {
  attrs = record { kind = []; id = []; from = []; to = []; lang = [] };
  subject = [];
  body = b'm' ∷ [];
  thread = [];
  error = no_err;
  extensions = [];
})

abbrev pub an_error : StreamError
an_error = record { error = record { space = []; local = b'c' ∷ [] }; text = [] }

abbrev pub toy_component : Transport → Component ℕ
toy_component t = record {
  address = b'h' ∷ [];
  secret = b's' ∷ [];
  transport = some t;
  router = catch_all;
  event_manager = record { current_state = disconnected; has_handler = false; events = [] };
  errors = [];
  receivers = 0;
  effects = [];
}

abbrev pub error_next : List Incoming
error_next = element (stream_error an_error) ∷ []

-- No type is registered, and what is filled by reflection is taken to be empty.
abbrev pub toy_types : Types
toy_types = record {
  registry = new_registry;
  implements = λ p t. true;
  make_extension = λ t se own. ok (record { kind = t; content = node se.name [] [] no_nodes });
  make_payload = λ t se own. ok (other_payload se.name.space []);
  make_stream_error = λ se own. ok an_error;
  make_stream_features = λ se own. ok no_features;
  make_sasl_success = λ se own. ok [];
  make_sasl_failure = λ se own. ok se.name;
  make_handshake = λ se own. ok [];
}

pub toy_types-TypesReturnErrors : TypesReturnErrors toy_types
toy_types-TypesReturnErrors = (
  (λ t se own e q. ok-IsRefusal _ e q),
  (λ t se own e q. ok-IsRefusal _ e q),
  (λ se own e q. ok-IsRefusal _ e q),
  (λ se own e q. ok-IsRefusal _ e q),
  (λ se own e q. ok-IsRefusal _ e q),
  (λ se own e q. ok-IsRefusal _ e q),
  (λ se own e q. ok-IsRefusal _ e q),
)
