-- ===== src/Stanza/Parser/Progress.antt =====
-- The decoders of package stanza: each reads its element, or returns an error.
pub mod Fields
use go_xmpp.Text.{GoString, mem_text, str, text_eq_instance, trim_space}
use go_xmpp.Text.Decimal.{Parsed, atoi}
use go_xmpp.Result.{GoError, Result, err, ok, text_error, ◌>>=◌}
use go_xmpp.Stanza.Packet.{
  Err, Iq, Message, Packet, Presence, iq, message, name, no_err, presence, types,
}
use go_xmpp.Stanza.Xml.{Fault, StartElement, Token, decode_element, name_eq_instance, text_content}
use go_xmpp.Stanza.Xml.Consumes.{
  Consumes, Consumes-if, IsRefusal, NotLonger, read_children-Consumes, text_error-IsRefusal,
}
use go_xmpp.Stanza.Xml.Elements.{
  decode_element-Consumes, decode_made-Consumes, decode_text-Consumes, ok-IsRefusal,
}
use go_xmpp.Stanza.Node.{decode_node, unmarshal_node}
use go_xmpp.Stanza.Node.Fuel.{unmarshal_node-Consumes}
use go_xmpp.Stanza.Error.{err_attrs, err_child, err_element, stanza_errors, unmarshal_err}
use go_xmpp.Stanza.Message.{
  message_child, message_element, message_field, new_message, read_attrs, unmarshal_message,
}
use go_xmpp.Stanza.Failed.{condition, failed_child, group_error_names, unmarshal_failed}
use go_xmpp.Stanza.Presence.{
  in_int_8, new_presence, presence_child, presence_element, presence_field, read_int_8,
  unmarshal_presence,
}
use go_xmpp.Stanza.IqXml.{iq_child, iq_start, payload_or_node, unmarshal_iq}
use go_xmpp.Stanza.Parser.Nonza.{as_packet, decode_packet}
use go_xmpp.Stanza.Extensions.{
  ReturnsErrors, Types, get_iq_extension, get_msg_extension, get_pres_extension,
}
use go_xmpp.Prelude.{
  Bool, List, Option, [], arith, false, if◌then◌else◌, nat_eq, none, some, true, ◌++◌, ◌==◌, ◌∷◌,
  ◌≡◌,
}
use go_xmpp.Stanza.Parser.Progress.Fields.{
  NotLonger-if, decode_err-Consumes, decode_node-Consumes, message_field-NotLonger,
  presence_field-NotLonger, with_value-Consumes, with_value-NotLonger,
}

-- What decodes a value of a registered type, and every struct that is filled by reflection, returns its
-- errors.
abbrev pub TypesReturnErrors : Types → Type 0
TypesReturnErrors types =
    ((t : GoString) → ReturnsErrors (types.make_extension t))
    × ((t : GoString) → ReturnsErrors (types.make_payload t))
    × ReturnsErrors types.make_stream_error
    × ReturnsErrors types.make_stream_features
    × ReturnsErrors types.make_sasl_success
    × ReturnsErrors types.make_sasl_failure
    × ReturnsErrors types.make_handshake

pub decode_packet-Consumes :
    {A : Type 0} (make : A → Packet) (read : List Token → Result A)
    → ((own : List Token) (e : GoError) → read own ≡ err e → IsRefusal e)
    → (fault : Fault) (ts : List Token) → Consumes ts (decode_packet make read fault ts)
unfolding decode_packet
decode_packet-Consumes make read k fault ts =
    with_value-Consumes make ts _ (decode_made-Consumes read k fault ts)

module _ (types : Types) (returns : TypesReturnErrors types) where
  message_element-NotLonger :
      (o : Option GoString) (se : StartElement) (m : Message) (fault : Fault) (ts : List Token)
      → NotLonger ts (message_element types o se m fault ts)
  unfolding message_element
  message_element-NotLonger (some t) se m fault ts =
      with_value-NotLonger (λ x. record m { extensions = m.extensions ++ x ∷ [] }) ts _
        (decode_made-Consumes (types.make_extension t se) (returns.0 t se) fault ts)
  message_element-NotLonger none se m fault ts = message_field-NotLonger se m fault ts

  message_child-NotLonger :
      (se : StartElement) (m : Message) (fault : Fault) (ts : List Token)
      → NotLonger ts (message_child types se m fault ts)
  unfolding message_child
  message_child-NotLonger se = message_element-NotLonger (get_msg_extension types se.name) se

  presence_element-NotLonger :
      (o : Option GoString) (se : StartElement) (p : Presence) (fault : Fault) (ts : List Token)
      → NotLonger ts (presence_element types o se p fault ts)
  unfolding presence_element
  presence_element-NotLonger (some t) se p fault ts =
      with_value-NotLonger (λ x. record p { extensions = p.extensions ++ x ∷ [] }) ts _
        (decode_made-Consumes (types.make_extension t se) (returns.0 t se) fault ts)
  presence_element-NotLonger none se p fault ts = presence_field-NotLonger se p fault ts

  presence_child-NotLonger :
      (se : StartElement) (p : Presence) (fault : Fault) (ts : List Token)
      → NotLonger ts (presence_child types se p fault ts)
  unfolding presence_child
  presence_child-NotLonger se = presence_element-NotLonger (get_pres_extension types se.name) se

  payload_or_node-NotLonger :
      (o : Option GoString) (se : StartElement) (q : Iq) (fault : Fault) (ts : List Token)
      → NotLonger ts (payload_or_node types o se q fault ts)
  unfolding payload_or_node
  payload_or_node-NotLonger (some t) se q fault ts =
      with_value-NotLonger (λ x. record q { payload = some x }) ts _
        (decode_made-Consumes (types.make_payload t se) (returns.1 t se) fault ts)
  payload_or_node-NotLonger none se q fault ts =
      with_value-NotLonger (λ x. record q { any = some x }) ts _ (decode_node-Consumes se fault ts)

  iq_child-NotLonger :
      (se : StartElement) (q : Iq) (fault : Fault) (ts : List Token)
      → NotLonger ts (iq_child types se q fault ts)
  unfolding iq_child
  iq_child-NotLonger se q fault ts =
      NotLonger-if ts (se.name.local == str "error") _ _
        (with_value-NotLonger (λ x. record q { error = some x }) ts _
          (decode_err-Consumes no_err se fault ts))
        (payload_or_node-NotLonger (get_iq_extension types se.name) se q fault ts)

  pub decode_message-Consumes :
      (se : StartElement) (fault : Fault) (ts : List Token)
      → Consumes ts (as_packet message (decode_element (unmarshal_message types) se fault ts))
  unfolding unmarshal_message
  decode_message-Consumes se fault ts = with_value-Consumes message ts _ (
      decode_element-Consumes (unmarshal_message types) se
        (λ f us.
          read_children-Consumes (message_child types) se.name message_child-NotLonger
            (new_message (read_attrs se.attr)) f us)
        fault ts)

  pub decode_presence-Consumes :
      (se : StartElement) (fault : Fault) (ts : List Token)
      → Consumes ts (as_packet presence (decode_element (unmarshal_presence types) se fault ts))
  unfolding unmarshal_presence
  decode_presence-Consumes se fault ts = with_value-Consumes presence ts _ (
      decode_element-Consumes (unmarshal_presence types) se
        (λ f us.
          read_children-Consumes (presence_child types) se.name presence_child-NotLonger
            (new_presence (read_attrs se.attr)) f us)
        fault ts)

  pub decode_iq-Consumes :
      (se : StartElement) (fault : Fault) (ts : List Token)
      → Consumes ts (as_packet iq (decode_element (unmarshal_iq types) se fault ts))
  unfolding unmarshal_iq
  decode_iq-Consumes se fault ts = with_value-Consumes iq ts _ (
      decode_element-Consumes (unmarshal_iq types) se
        (λ f us.
          read_children-Consumes (iq_child types) se.name iq_child-NotLonger (iq_start se.attr) f
            us)
        fault ts)
