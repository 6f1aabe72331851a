-- ===== src/Stanza/PubSub/Decode.antt =====
-- PubSubOwner.UnmarshalXML of stanza/pubsub_owner.go and Command.UnmarshalXML of stanza/commands.go.
use go_xmpp.Text.{GoString, mem_text, str, text_eq_instance}
use go_xmpp.Result.{Result, ok, ◌>>=◌}
use go_xmpp.Stanza.Payload.{Form}
use go_xmpp.Stanza.Payload.PubSub.{
  Actions, Command, CommandElement, OwnerUseCase, PubSubOwner, actions_element, form_element,
  no_command, node_element, note_element,
}
use go_xmpp.Stanza.Xml.{Decode, StartElement, Token, decode_made, last_attr, name_eq_instance}
use go_xmpp.Stanza.Xml.Loop.{read_children}
use go_xmpp.Stanza.Node.{decode_node}
use go_xmpp.Prelude.{List, [], if◌then◌else◌, nat_eq, none, some, ◌==◌, ◌∷◌}

abbrev pub use_cases : List GoString
use_cases =
    str "affiliations"
    ∷ str "configure"
    ∷ str "default"
    ∷ str "delete"
    ∷ str "purge"
    ∷ str "subscriptions"
    ∷ []

-- `make` is what encoding/xml fills the struct of a use case with. Of another element only the start tag
-- is read.
module _ (make : StartElement → List Token → Result OwnerUseCase) where
  unfoldable pub owner_child : StartElement → PubSubOwner → Decode PubSubOwner
  unfolding decode_made mem_text
  owner_child se p fault ts =
      if mem_text se.name.local use_cases
      then (decode_made (make se) fault ts >>= λ r.
          ok (record p { owner_use_case = some r.0 }, r.1))
      else ok (p, ts)

  unfoldable pub unmarshal_pub_sub_owner : StartElement → Decode PubSubOwner
  unfolding read_children owner_child
  unmarshal_pub_sub_owner se =
      read_children owner_child se.name
        (record { xml_name = se.name; owner_use_case = none; result_set = none })

-- The structs that a command may hold.
pub record CommandParts : Type 0 where
  pub make_actions : StartElement → List Token → Result Actions
  pub make_note : StartElement → List Token → Result (GoString × GoString)
  pub make_form : StartElement → List Token → Result Form

abbrev pub set_element : Command → CommandElement → Command
set_element c e = record c { command_element = some e }

module _ (parts : CommandParts) where
  -- The cases of the switch as they stand: the elements of actions and notes have other names.
  unfoldable pub command_child : StartElement → Command → Decode Command
  unfolding decode_made decode_node
  command_child se c fault ts =
      if se.name.local == str "affiliations"
      then (decode_made (parts.make_actions se) fault ts >>= λ r.
          ok (set_element c (actions_element r.0), r.1))
      else if se.name.local == str "configure"
      then (decode_made (parts.make_note se) fault ts >>= λ r.
          ok (set_element c (note_element r.0.0 r.0.1), r.1))
      else if se.name.local == str "x"
      then (decode_made (parts.make_form se) fault ts >>= λ r.
          ok (set_element c (form_element r.0), r.1))
      else (decode_node se fault ts >>= λ r. ok (set_element c (node_element r.0), r.1))

  unfoldable pub command_start : StartElement → Command
  unfolding last_attr
  command_start se = record no_command {
    xml_name = se.name;
    action = last_attr (str "action") se.attr [];
    node = last_attr (str "node") se.attr [];
    session_id = last_attr (str "sessionid") se.attr [];
    status = last_attr (str "status") se.attr [];
    lang = last_attr (str "lang") se.attr [];
  }

  unfoldable pub unmarshal_command : StartElement → Decode Command
  unfolding read_children command_child command_start
  unmarshal_command se = read_children command_child se.name (command_start se)
