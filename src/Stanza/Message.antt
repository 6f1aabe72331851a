-- ===== src/Stanza/Message.antt =====
-- stanza/message.go: how a message is read.
pub mod Fields
use go_xmpp.Text.{GoString, str, text_eq_instance}
use go_xmpp.Result.{ok, ◌>>=◌}
use go_xmpp.Stanza.Packet.{Attribute, Attrs, Extension, Message, name, no_err, types}
use go_xmpp.Stanza.Xml.{
  Decode, StartElement, decode_element, decode_made, decode_text, last_attr, name_eq_instance,
}
use go_xmpp.Stanza.Xml.Loop.{read_children}
use go_xmpp.Stanza.Error.{unmarshal_err}
use go_xmpp.Stanza.Extensions.{Types, get_msg_extension}
use go_xmpp.Prelude.{List, Option, [], if◌then◌else◌, nat_eq, none, some, ◌++◌, ◌==◌, ◌∷◌}

-- The attributes of a message or a presence; the last of two with a name counts.
unfoldable pub read_attrs : List Attribute → Attrs
unfolding last_attr
read_attrs l = record {
  kind = last_attr (str "type") l [];
  id = last_attr (str "id") l [];
  from = last_attr (str "from") l [];
  to = last_attr (str "to") l [];
  lang = last_attr (str "lang") l [];
}

unfoldable pub new_message : Attrs → Message
new_message a = record {
  attrs = a;
  subject = [];
  body = [];
  thread = [];
  error = no_err;
  extensions = [];
}

-- The first extension of a type, as Get finds it by the type of the pointer that it is given.
unfoldable pub find_extension : GoString → List Extension → Option Extension
find_extension t [] = none
find_extension t (e ∷ l) = let later = find_extension t l in if e.kind == t then some e else later

unfoldable pub get_from_message : GoString → Message → Option Extension
unfolding find_extension
get_from_message t m = find_extension t m.extensions

-- The standard elements. Of another element only the start tag is read.
unfoldable pub message_field : StartElement → Message → Decode Message
unfolding decode_text decode_element unmarshal_err
message_field se m fault ts =
    if se.name.local == str "body"
    then (decode_text se fault ts >>= λ p. ok (record m { body = p.0 }, p.1))
    else if se.name.local == str "thread"
    then (decode_text se fault ts >>= λ p. ok (record m { thread = p.0 }, p.1))
    else if se.name.local == str "subject"
    then (decode_text se fault ts >>= λ p. ok (record m { subject = p.0 }, p.1))
    else if se.name.local == str "error"
    then (decode_element (unmarshal_err m.error) se fault ts >>= λ p.
        ok (record m { error = p.0 }, p.1))
    else ok (m, ts)

module _ (types : Types) where
  unfoldable pub message_element : Option GoString → StartElement → Message → Decode Message
  unfolding decode_made message_field
  message_element (some t) se m fault ts = decode_made (types.make_extension t se) fault ts >>= λ p.
      ok (record m { extensions = m.extensions ++ p.0 ∷ [] }, p.1)
  message_element none se m fault ts = message_field se m fault ts

  -- A registered type for the element's name, or else a standard element.
  unfoldable pub message_child : StartElement → Message → Decode Message
  unfolding get_msg_extension message_element
  message_child se = message_element (get_msg_extension types se.name) se

  -- Message.UnmarshalXML, on a new value.
  unfoldable pub unmarshal_message : StartElement → Decode Message
  unfolding read_children message_child read_attrs new_message
  unmarshal_message se = read_children message_child se.name (new_message (read_attrs se.attr))
