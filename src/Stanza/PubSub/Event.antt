-- ===== src/Stanza/PubSub/Event.antt =====
-- stanza/msg_pubsub_event.go: the notifications of publish-subscribe.
use go_xmpp.Text.{GoString, mem_text, str}
use go_xmpp.Result.{Result, ok, ◌>>=◌}
use go_xmpp.Stanza.Payload.{Form, Node, XmlName}
use go_xmpp.Stanza.Payload.PubSub.{SubInfo}
use go_xmpp.Stanza.Xml.{Decode, Fault, StartElement, Token, decode_made}
use go_xmpp.Stanza.Xml.Loop.{read_children}
use go_xmpp.Stanza.Xml.Consumes.{Consumes, NotLonger, read_children-Consumes}
use go_xmpp.Stanza.Xml.Elements.{decode_made-Consumes}
use go_xmpp.Stanza.Parser.Progress.Fields.{NotLonger-if, with_value-NotLonger}
use go_xmpp.Stanza.Extensions.{ReturnsErrors}
use go_xmpp.Prelude.{List, Option, [], arith, if◌then◌else◌, none, some, ◌∷◌}

-- AssociateEvent and DisassociateEvent, each with its node.
pub data AssocDisassoc : Type 0 where
  associate : GoString → AssocDisassoc
  disassociate : GoString → AssocDisassoc

abbrev pub get_assoc_disassoc : AssocDisassoc → GoString
get_assoc_disassoc (associate n) = str "Associate"
get_assoc_disassoc (disassociate n) = str "Disassociate"

pub record ItemEvent : Type 0 where
  pub id : GoString
  pub publisher : GoString
  pub any : Option Node

-- A redirect is its URI, a retraction its id.
pub data EventElement : Type 0 where
  collection : Option AssocDisassoc → GoString → EventElement
  configuration : GoString → Option Form → EventElement
  delete : GoString → Option GoString → EventElement
  items : List ItemEvent → GoString → Option GoString → EventElement
  purge : GoString → EventElement
  subscription : GoString → GoString → SubInfo → EventElement

-- DeleteEvent answers with the name of a configuration.
abbrev pub event_name : EventElement → GoString
event_name (collection a n) = str "Collection"
event_name (configuration n form) = str "Configuration"
event_name (delete n redirect) = str "Configuration"
event_name (items l n retract) = str "List"
event_name (purge n) = str "Purge"
event_name (subscription status expiry info) = str "Subscription"

pub record PubSubEvent : Type 0 where
  pub xml_name : XmlName
  pub event_element : Option EventElement

abbrev pub event_tags : List GoString
event_tags =
    str "collection"
    ∷ str "configuration"
    ∷ str "delete"
    ∷ str "items"
    ∷ str "purge"
    ∷ str "subscription"
    ∷ []

-- `make` is what encoding/xml fills the struct that the tag stands for with.
module _ (make : StartElement → List Token → Result EventElement) where
  -- Of an unknown element only the start tag is read.
  unfoldable pub event_child : StartElement → PubSubEvent → Decode PubSubEvent
  unfolding decode_made mem_text
  event_child se e fault ts =
      if mem_text se.name.local event_tags
      then (decode_made (make se) fault ts >>= λ r. ok (record e { event_element = some r.0 }, r.1))
      else ok (e, ts)

  -- PubSubEvent.UnmarshalXML, on an empty value.
  unfoldable pub unmarshal_event : StartElement → Decode PubSubEvent
  unfolding read_children event_child
  unmarshal_event se =
      read_children event_child se.name (record { xml_name = se.name; event_element = none })

  event_child-NotLonger :
      ReturnsErrors make
      → (se : StartElement) (e : PubSubEvent) (fault : Fault) (ts : List Token)
      → NotLonger ts (event_child se e fault ts)
  unfolding event_child NotLonger
  event_child-NotLonger k se e fault ts =
      NotLonger-if ts (mem_text se.name.local event_tags) _ _
        (with_value-NotLonger (λ r. record e { event_element = some r }) ts _
          (decode_made-Consumes (make se) (k se) fault ts))
        (omega arith)

  -- If the decoding of the structs never panics, then neither does that of a notification: it reads at
  -- least one token, or returns an error.
  unmarshal_event-Consumes :
      ReturnsErrors make
      → (se : StartElement) (fault : Fault) (ts : List Token)
      → Consumes ts (unmarshal_event se fault ts)
  unfolding unmarshal_event
  unmarshal_event-Consumes k se fault ts =
      read_children-Consumes event_child se.name (event_child-NotLonger k) _ fault ts
