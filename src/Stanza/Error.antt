-- ===== src/Stanza/Error.antt =====
-- stanza/error.go: the errors in stanzas, read and written.
pub mod RoundTrip
pub mod Extent
use go_xmpp.Text.{GoString, is_blank, str, text_eq_instance}
use go_xmpp.Text.Split.{join}
use go_xmpp.Text.Decimal.{Parsed, atoi, itoa, minus, plus, syntax}
use go_xmpp.Result.{ok, ◌>>=◌}
use go_xmpp.Stanza.Packet.{Attribute, Err, Node, XmlName, name, node}
use go_xmpp.Stanza.Xml.{
  Decode, StartElement, Token, char_data, end_token, name_eq_instance, start_token,
}
use go_xmpp.Stanza.Xml.Loop.{read_children}
use go_xmpp.Stanza.Node.{decode_node, written_start}
use go_xmpp.Prelude.{
  List, [], if◌then◌else◌, nat_eq, negsuc, not, pos, suc, zero, ℤ, ◌++◌, ◌==◌, ◌||◌, ◌∷◌,
}

abbrev pub stanza_errors : GoString
stanza_errors = str "urn:ietf:params:xml:ns:xmpp-stanzas"

abbrev pub error_name : GoString → XmlName
error_name local = record { space = stanza_errors; local = local }

-- A code that Atoi refuses is passed over.
abbrev pub code_or : ℤ → Parsed → ℤ
code_or code syntax = code
code_or code (plus n) = pos n
code_or code (minus zero) = pos 0
code_or code (minus (suc n)) = negsuc n

abbrev pub err_attr : Attribute → Err → Err
err_attr a x = record x {
  kind = if a.name.local == str "type" then a.value else x.kind;
  code = if a.name.local == str "code" then code_or x.code (atoi a.value) else x.code;
}

unfoldable pub err_attrs : List Attribute → Err → Err
err_attrs [] x = x
err_attrs (a ∷ l) x = err_attrs l (err_attr a x)

-- strings.Join of the one name is that name, so that a later reason replaces an earlier one.
unfoldable pub err_reason : GoString → GoString → GoString
unfolding join
err_reason held local = if not (is_blank held) then join b':' (local ∷ []) else local

unfoldable pub err_element : Node → Err → Err
unfolding err_reason
err_element (node n attrs text nodes) x =
    if n == error_name (str "text") || n == error_name (str "gone")
    then record x { text = text }
    else if n.space == stanza_errors || n.space == str "http://jabber.org/protocol/pubsub#errors"
    then record x { reason = err_reason x.reason n.local }
    else x

unfoldable pub err_child : StartElement → Err → Decode Err
unfolding decode_node err_element
err_child se x fault ts = decode_node se fault ts >>= λ p. ok (err_element p.0 x, p.1)

-- Err.UnmarshalXML, on what the value holds.
unfoldable pub unmarshal_err : Err → StartElement → Decode Err
unfolding err_attrs read_children
unmarshal_err x se = read_children err_child se.name (err_attrs se.attr x)

-- strconv.Itoa
unfoldable pub itoa_int : ℤ → GoString
itoa_int (pos n) = itoa n
itoa_int (negsuc n) = b'-' ∷ itoa (suc n)

abbrev pub plain_attr : GoString → GoString → Attribute
plain_attr local value = record { name = record { space = []; local = local }; value = value }

abbrev pub optional_attr : GoString → GoString → List Attribute
optional_attr local [] = []
optional_attr local (c ∷ s) = plain_attr local (c ∷ s) ∷ []

-- The tag of an error where `space` is the default namespace: MarshalXML names none.
abbrev pub error_tag : GoString → XmlName
error_tag space = record { space = space; local = str "error" }

-- The start tag as it is read where `space` is the default namespace.
unfoldable pub err_start : GoString → Err → StartElement
unfolding itoa_int
err_start space x = record {
  name = error_tag space;
  attr = plain_attr (str "code") (itoa_int x.code) ∷ optional_attr (str "type") x.kind;
}

abbrev pub reason_tokens : GoString → List Token
reason_tokens [] = []
reason_tokens (c ∷ s) =
    start_token (written_start (error_name (c ∷ s)) []) ∷ end_token (error_name (c ∷ s)) ∷ []

abbrev pub err_text_tokens : GoString → List Token
err_text_tokens [] = []
err_text_tokens (c ∷ s) =
    start_token (written_start (error_name (str "text")) [])
    ∷ char_data (c ∷ s)
    ∷ end_token (error_name (str "text"))
    ∷ []

-- What MarshalXML writes behind the start tag.
abbrev pub err_body : GoString → Err → List Token
err_body space x =
    reason_tokens x.reason ++ (err_text_tokens x.text ++ end_token (error_tag space) ∷ [])

-- Err.MarshalXML: nothing without a code.
unfoldable pub marshal_err : Err → List Token
unfolding err_start
marshal_err x = elim x.code [
  | pos zero ↦ []
  | pos (suc n) ↦ start_token (err_start [] x) ∷ err_body [] x
  | negsuc n ↦ start_token (err_start [] x) ∷ err_body [] x
]
