-- ===== src/Stanza/Packet.antt =====
-- The packets of package stanza, as the client, the component and the router tell them apart
-- (stanza/packet.go, iq.go, message.go, presence.go, error.go, stream_management.go, sasl_auth.go,
-- stream_features.go, component.go). A Go pointer that may be nil is an Option.
pub use go_xmpp.Stanza.Payload.{XmlName, no_name, Attribute, Node, node, Nodes, no_nodes, next_node}
use go_xmpp.Stanza.Payload.PubSub.{Command, PubSubGeneric, PubSubOwner}
use go_xmpp.Text.{GoString, is_empty, str, text_eq_instance}
use go_xmpp.Prelude.{
  Bool, List, Option, [], if◌then◌else◌, nat_eq, none, pos, some, true, ℕ, ℤ, ◌++◌, ◌==◌, ◌∷◌,
}

-- A value of a type that the registry has for an element: the type and the element.
pub record Extension : Type 0 where
  pub kind : GoString
  pub content : Node

-- stanza.Attrs; the field Type is `kind` here.
pub record Attrs : Type 0 where
  pub kind : GoString
  pub id : GoString
  pub from : GoString
  pub to : GoString
  pub lang : GoString

-- Without XMLName, which Err.UnmarshalXML sets to the name of the tag, and which the library never reads.
pub record Err : Type 0 where
  pub code : ℤ
  pub kind : GoString
  pub reason : GoString
  pub text : GoString

abbrev pub no_err : Err
no_err = record { code = pos 0; kind = []; reason = []; text = [] }

-- The payloads of an IQ: the two that session negotiation looks into, those of publish-subscribe and
-- commands, and any other with the namespace that its method Namespace gives.
pub data IqPayload : Type 0 where
  bind : XmlName → GoString → GoString → IqPayload
  stream_session : XmlName → IqPayload
  pub_sub : PubSubGeneric → IqPayload
  pub_sub_owner : PubSubOwner → IqPayload
  command : Command → IqPayload
  other_payload : GoString → GoString → IqPayload

-- The method Namespace of the payloads.
unfoldable pub namespace : IqPayload → GoString
namespace (bind name resource jid) = name.space
namespace (stream_session name) = name.space
namespace (pub_sub p) = p.xml_name.space
namespace (pub_sub_owner p) = p.xml_name.space
namespace (command c) = c.xml_name.space
namespace (other_payload ns content) = ns

pub record Iq : Type 0 where
  pub attrs : Attrs
  pub payload : Option IqPayload
  pub error : Option Err
  pub any : Option Node

pub record Message : Type 0 where
  pub attrs : Attrs
  pub subject : GoString
  pub body : GoString
  pub thread : GoString
  pub error : Err
  pub extensions : List Extension

pub record Presence : Type 0 where
  pub attrs : Attrs
  pub show : GoString
  pub status : GoString
  pub priority : ℤ
  pub error : Err
  pub extensions : List Extension

pub record StreamError : Type 0 where
  pub error : XmlName
  pub text : GoString

pub record StreamSession : Type 0 where
  pub xml_name : XmlName
  pub optional : Bool

pub record SaslChannelBinding : Type 0 where
  pub xml_name : XmlName
  pub channel_binding : List GoString

pub record StreamFeatures : Type 0 where
  pub start_tls : XmlName
  pub mechanism : List GoString
  pub sasl_channel_binding : SaslChannelBinding
  pub stream_management : XmlName
  pub session : StreamSession

pub record SmEnabled : Type 0 where
  pub id : GoString
  pub location : GoString
  pub resume : GoString
  pub max : ℕ

pub record SmResumed : Type 0 where
  pub prev_id : GoString
  pub h : Option ℕ

pub data Packet : Type 0 where
  message : Message → Packet
  presence : Presence → Packet
  iq : Iq → Packet
  stream_error : StreamError → Packet
  stream_features : StreamFeatures → Packet
  stream_close : Packet
  sm_enabled : SmEnabled → Packet
  sm_resumed : SmResumed → Packet
  sm_resume : SmResumed → Packet
  sm_request : Packet
  sm_answer : ℕ → Packet
  sm_failed : Option GoString → Packet
  sasl_success : GoString → Packet
  sasl_failure : XmlName → Packet
  handshake : GoString → Packet

-- The method Name of each packet.
unfoldable pub name : Packet → GoString
name (message m) = str "message"
name (presence p) = str "presence"
name (iq q) = str "iq"
name (stream_error e) = str "stream:error"
name (stream_features f) = str "stream:features"
name stream_close = str "stream:stream"
name (sm_enabled e) = str "Stream Management: enabled"
name (sm_resumed r) = str "Stream Management: resumed"
name (sm_resume r) = str "Stream Management: resume"
name sm_request = str "Stream Management: request"
name (sm_answer h) = str "Stream Management: answer"
name (sm_failed g) = str "Stream Management: failed"
name (sasl_success v) = str "sasl:success"
name (sasl_failure a) = str "sasl:failure"
name (handshake v) = str "component:handshake"

-- StreamSession.IsOptional
unfoldable pub is_optional : StreamSession → Bool
is_optional s = if s.xml_name.local == str "session" then s.optional else true

-- The test of DoesStartTLS and DoesStreamManagement: Space + " " + Local against a literal.
unfoldable pub does_start_tls : StreamFeatures → Bool
does_start_tls sf =
    sf.start_tls.space ++ b' ' ∷ sf.start_tls.local
    == str "urn:ietf:params:xml:ns:xmpp-tls starttls"

unfoldable pub does_stream_management : StreamFeatures → Bool
does_stream_management sf =
    sf.stream_management.space ++ b' ' ∷ sf.stream_management.local == str "urn:xmpp:sm:3 sm"

-- SASLChannelBinding.Types: nil, which is `none`, if the element was not there.
unfoldable pub types : SaslChannelBinding → Option (List GoString)
types cb = if is_empty cb.xml_name.local then none else some cb.channel_binding
