-- ===== src/Stanza/Presence.antt =====
-- stanza/presence.go: how a presence is read.
use go_xmpp.Text.{GoString, is_empty, str, text_eq_instance, trim_space}
use go_xmpp.Text.Decimal.{Parsed, atoi, minus, plus, syntax}
use go_xmpp.Stanza.Message.{find_extension, read_attrs}
use go_xmpp.Result.{Result, err, ok, text_error, ◌>>=◌}
use go_xmpp.Stanza.Packet.{Attrs, Extension, Presence, no_err}
use go_xmpp.Stanza.Xml.{
  Decode, StartElement, decode_element, decode_made, decode_text, name_eq_instance, text_content,
}
use go_xmpp.Stanza.Xml.Loop.{read_children}
use go_xmpp.Stanza.Error.{unmarshal_err}
use go_xmpp.Stanza.Extensions.{Types, get_pres_extension}
use go_xmpp.Prelude.{
  Option, [], if◌then◌else◌, leb, nat_eq, negsuc, none, pos, some, suc, zero, ℤ, ◌++◌, ◌==◌, ◌∷◌,
}

unfoldable pub new_presence : Attrs → Presence
new_presence a = record {
  attrs = a;
  show = [];
  status = [];
  priority = pos 0;
  error = no_err;
  extensions = [];
}

unfoldable pub get_from_presence : GoString → Presence → Option Extension
unfolding find_extension
get_from_presence t p = find_extension t p.extensions

abbrev pub in_int_8 : Parsed → Result ℤ
in_int_8 syntax = err (text_error (str "strconv.ParseInt: invalid syntax"))
in_int_8 (plus n) =
    if leb n 127 then ok (pos n) else err (text_error (str "strconv.ParseInt: value out of range"))
in_int_8 (minus zero) = ok (pos 0)
in_int_8 (minus (suc n)) =
    if leb n 127
    then ok (negsuc n)
    else err (text_error (str "strconv.ParseInt: value out of range"))

-- DecodeElement into an int8: the text without the space around it; nothing is 0.
abbrev pub read_int_8 : GoString → Result ℤ
read_int_8 s = if is_empty s then ok (pos 0) else in_int_8 (atoi (trim_space s))

-- The standard elements. Of another element only the start tag is read.
unfoldable pub presence_field : StartElement → Presence → Decode Presence
unfolding decode_text decode_made decode_element unmarshal_err
presence_field se p fault ts =
    if se.name.local == str "show"
    then (decode_text se fault ts >>= λ r. ok (record p { show = r.0 }, r.1))
    else if se.name.local == str "status"
    then (decode_text se fault ts >>= λ r. ok (record p { status = r.0 }, r.1))
    else if se.name.local == str "priority"
    then (decode_made (λ own. read_int_8 (text_content 0 own)) fault ts >>= λ r.
        ok (record p { priority = r.0 }, r.1))
    else if se.name.local == str "error"
    then (decode_element (unmarshal_err p.error) se fault ts >>= λ r.
        ok (record p { error = r.0 }, r.1))
    else ok (p, ts)

module _ (types : Types) where
  unfoldable pub presence_element : Option GoString → StartElement → Presence → Decode Presence
  unfolding decode_made presence_field
  presence_element (some t) se p fault ts =
      decode_made (types.make_extension t se) fault ts >>= λ r.
      ok (record p { extensions = p.extensions ++ r.0 ∷ [] }, r.1)
  presence_element none se p fault ts = presence_field se p fault ts

  -- A registered type for the element's name, or else a standard element.
  unfoldable pub presence_child : StartElement → Presence → Decode Presence
  unfolding get_pres_extension presence_element
  presence_child se = presence_element (get_pres_extension types se.name) se

  -- Presence.UnmarshalXML, on a new value.
  unfoldable pub unmarshal_presence : StartElement → Decode Presence
  unfolding read_children presence_child read_attrs new_presence
  unmarshal_presence se = read_children presence_child se.name (new_presence (read_attrs se.attr))
