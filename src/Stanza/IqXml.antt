-- ===== src/Stanza/IqXml.antt =====
-- stanza/iq.go: how an IQ is read.
use go_xmpp.Text.{GoString, str, text_eq_instance}
use go_xmpp.Result.{ok, ◌>>=◌}
use go_xmpp.Stanza.Packet.{Attribute, Iq, no_err}
use go_xmpp.Stanza.Xml.{Decode, StartElement, decode_element, decode_made, name_eq_instance}
use go_xmpp.Stanza.Xml.Loop.{read_children}
use go_xmpp.Stanza.Node.{decode_node}
use go_xmpp.Stanza.Error.{unmarshal_err}
use go_xmpp.Stanza.Message.{read_attrs}
use go_xmpp.Stanza.Extensions.{Types, get_iq_extension}
use go_xmpp.Prelude.{List, Option, [], if◌then◌else◌, nat_eq, none, some, ◌==◌}

-- The attribute lang is not read.
unfoldable pub iq_start : List Attribute → Iq
unfolding read_attrs
iq_start l = record {
  attrs = record (read_attrs l) { lang = [] };
  payload = none;
  error = none;
  any = none;
}

module _ (types : Types) where
  unfoldable pub payload_or_node : Option GoString → StartElement → Iq → Decode Iq
  unfolding decode_made decode_node
  payload_or_node (some t) se q fault ts = decode_made (types.make_payload t se) fault ts >>= λ p.
      ok (record q { payload = some p.0 }, p.1)
  payload_or_node none se q fault ts =
      decode_node se fault ts >>= λ p. ok (record q { any = some p.0 }, p.1)

  -- An error, or a payload of a registered type, or any other element as a Node; the last one counts.
  unfoldable pub iq_child : StartElement → Iq → Decode Iq
  unfolding get_iq_extension payload_or_node decode_element unmarshal_err
  iq_child se q fault ts =
      if se.name.local == str "error"
      then (decode_element (unmarshal_err no_err) se fault ts >>= λ p.
          ok (record q { error = some p.0 }, p.1))
      else payload_or_node (get_iq_extension types se.name) se q fault ts

  -- IQ.UnmarshalXML, on a new value.
  unfoldable pub unmarshal_iq : StartElement → Decode Iq
  unfolding read_children iq_child iq_start
  unmarshal_iq se = read_children iq_child se.name (iq_start se.attr)
