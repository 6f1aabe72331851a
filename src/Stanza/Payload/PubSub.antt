-- ===== src/Stanza/Payload/PubSub.antt =====
-- The payloads of stanza/pubsub.go, pubsub_owner.go and commands.go.
use go_xmpp.Text.{GoString, str}
use go_xmpp.Stanza.Payload.{Form, Node, ResultSet, XmlName, no_name}
use go_xmpp.Prelude.{Bool, List, Option, [], false, none, some, ℤ}

pub record SubInfo : Type 0 where
  pub node : GoString
  pub jid : GoString
  pub sub_id : Option GoString

pub record Affiliation : Type 0 where
  pub affiliation_status : GoString
  pub node : GoString

pub record Affiliations : Type 0 where
  pub list : List Affiliation
  pub node : GoString

pub record Create : Type 0 where
  pub node : GoString

pub record SubOptions : Type 0 where
  pub sub_info : SubInfo
  pub form : Option Form

pub record Configure : Type 0 where
  pub form : Option Form

pub record Default : Type 0 where
  pub node : GoString
  pub kind : GoString
  pub form : Option Form

pub record Subscription : Type 0 where
  pub sub_status : GoString
  pub sub_info : SubInfo
  pub required : Bool

pub record PublishOptions : Type 0 where
  pub form : Option Form

pub record Item : Type 0 where
  pub id : GoString
  pub publisher : GoString
  pub any : Option Node

pub record Publish : Type 0 where
  pub node : GoString
  pub items : List Item

pub record Items : Type 0 where
  pub list : List Item
  pub max_items : ℤ
  pub node : GoString
  pub sub_id : GoString

pub record Retract : Type 0 where
  pub node : GoString
  pub notify : Option Bool
  pub items : List Item

pub record PubSubGeneric : Type 0 where
  pub xml_name : XmlName
  pub create : Option Create
  pub configure : Option Configure
  pub subscribe : Option SubInfo
  pub sub_options : Option SubOptions
  pub publish : Option Publish
  pub publish_options : Option PublishOptions
  pub affiliations : Option Affiliations
  pub default : Option Default
  pub items : Option Items
  pub retract : Option Retract
  pub subscription : Option Subscription
  pub subscriptions : Option (List Subscription)
  pub unsubscribe : Option SubInfo
  pub result_set : Option ResultSet

abbrev pub no_pub_sub : PubSubGeneric
no_pub_sub = record {
  xml_name = no_name;
  create = none;
  configure = none;
  subscribe = none;
  sub_options = none;
  publish = none;
  publish_options = none;
  affiliations = none;
  default = none;
  items = none;
  retract = none;
  subscription = none;
  subscriptions = none;
  unsubscribe = none;
  result_set = none;
}

pub record AffiliationOwner : Type 0 where
  pub affiliation_status : GoString
  pub jid : GoString

pub record SubscriptionOwner : Type 0 where
  pub subscription_status : GoString
  pub jid : GoString

-- OwnerUseCase; the redirect of a deletion is its URI.
pub data OwnerUseCase : Type 0 where
  affiliations_owner : List AffiliationOwner → GoString → OwnerUseCase
  configure_owner : GoString → Option Form → OwnerUseCase
  default_owner : Option Form → OwnerUseCase
  delete_owner : Option GoString → GoString → OwnerUseCase
  purge_owner : GoString → OwnerUseCase
  subscriptions_owner : List SubscriptionOwner → GoString → OwnerUseCase

unfoldable pub use_case : OwnerUseCase → GoString
use_case (affiliations_owner l n) = str "affiliations"
use_case (configure_owner n form) = str "configure"
use_case (default_owner form) = str "default"
use_case (delete_owner redirect n) = str "delete"
use_case (purge_owner n) = str "purge"
use_case (subscriptions_owner l n) = str "subscriptions"

pub record PubSubOwner : Type 0 where
  pub xml_name : XmlName
  pub owner_use_case : Option OwnerUseCase
  pub result_set : Option ResultSet

abbrev pub owner_of : OwnerUseCase → PubSubOwner
owner_of u = record { xml_name = no_name; owner_use_case = some u; result_set = none }

pub record Actions : Type 0 where
  pub prev : Bool
  pub next : Bool
  pub complete : Bool
  pub execute : GoString

-- CommandElement; a note is its text and its type.
pub data CommandElement : Type 0 where
  actions_element : Actions → CommandElement
  note_element : GoString → GoString → CommandElement
  form_element : Form → CommandElement
  node_element : Node → CommandElement

pub record Command : Type 0 where
  pub xml_name : XmlName
  pub command_element : Option CommandElement
  pub bad_action : Bool
  pub bad_locale : Bool
  pub bad_payload : Bool
  pub bad_session_id : Bool
  pub malformed_action : Bool
  pub session_expired : Bool
  pub action : GoString
  pub node : GoString
  pub session_id : GoString
  pub status : GoString
  pub lang : GoString
  pub result_set : Option ResultSet

abbrev pub no_command : Command
no_command = record {
  xml_name = no_name;
  command_element = none;
  bad_action = false;
  bad_locale = false;
  bad_payload = false;
  bad_session_id = false;
  malformed_action = false;
  session_expired = false;
  action = [];
  node = [];
  session_id = [];
  status = [];
  lang = [];
  result_set = none;
}
