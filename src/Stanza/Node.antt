-- ===== src/Stanza/Node.antt =====
-- stanza/node.go: an element of any kind, read from tokens and written as tokens.
pub mod Fuel
pub mod RoundTrip
pub mod Extent
use go_xmpp.Text.{GoString, is_empty, str, text_eq_instance}
use go_xmpp.Result.{GoError, err, ok, panic, text_error, ◌>>=◌}
use go_xmpp.Stanza.Packet.{Attribute, Node, Nodes, XmlName, next_node, no_nodes, node}
use go_xmpp.Stanza.Xml.{
  Decode, StartElement, Token, char_data, decode_element, end_token, fault_error, name_eq_instance,
  noise, start_token,
}
use go_xmpp.Prelude.{
  List, [], false, if◌then◌else◌, leb, length, nat_eq, not, suc, true, zero, ℕ, ◌++◌, ◌+◌, ◌==◌,
  ◌∷◌,
}

abbrev pub xml_element_max_depth : ℕ
xml_element_max_depth = 128

-- `n.Nodes = append(n.Nodes, child)`
unfoldable pub append_node : Nodes → Node → Nodes
append_node no_nodes n = next_node n no_nodes
append_node (next_node m l) n = next_node m (append_node l n)

-- The attributes without xmlns, which the name has already.
unfoldable pub without_xmlns : List Attribute → List Attribute
without_xmlns [] = []
without_xmlns (a ∷ l) =
    if not (a.name.local == str "xmlns") then a ∷ without_xmlns l else without_xmlns l

abbrev pub too_deep : GoError
too_deep = text_error (str "reached maximum depth of XML stream")

-- The loop of unmarshalXMLDepth on the element of the start tag, with fuel; the text and the nodes read
-- so far. The element inside is read by the same loop, one level deeper.
unfoldable pub node_rounds : ℕ → StartElement → ℕ → GoString → Nodes → Decode Node
unfolding without_xmlns
node_rounds zero se depth text nodes fault ts = err panic
node_rounds (suc f) se depth text nodes fault [] = err (fault_error fault)
node_rounds (suc f) se depth text nodes fault (start_token t ∷ ts) =
    let inner = node_rounds f t (depth + 1) [] no_nodes fault ts >>= λ p.
    node_rounds f se depth text (append_node nodes p.0) fault p.1 in
    if leb xml_element_max_depth (depth + 1) then err too_deep else inner
node_rounds (suc f) se depth text nodes fault (end_token n ∷ ts) =
    let rest = node_rounds f se depth text nodes fault ts in
    if n == se.name then ok (node se.name (without_xmlns se.attr) text nodes, ts) else rest
node_rounds (suc f) se depth text nodes fault (char_data c ∷ ts) =
    node_rounds f se depth (text ++ c) nodes fault ts
node_rounds (suc f) se depth text nodes fault (noise ∷ ts) =
    node_rounds f se depth text nodes fault ts

-- Node.UnmarshalXML. The first level is 1, which is below the bound.
unfoldable pub unmarshal_node : StartElement → Decode Node
unfolding node_rounds
unmarshal_node se fault ts = node_rounds (suc (length ts)) se 1 [] no_nodes fault ts

-- DecodeElement into a Node.
unfoldable pub decode_node : StartElement → Decode Node
unfolding decode_element unmarshal_node
decode_node = decode_element unmarshal_node

-- A start tag as it is read again after it was written: the namespace of the name is an attribute.
unfoldable pub written_start : XmlName → List Attribute → StartElement
written_start n attrs = record {
  name = n;
  attr =
      if is_empty n.space
      then attrs
      else (record { name = record { space = []; local = str "xmlns" }; value = n.space }) ∷ attrs;
}

abbrev pub text_tokens : GoString → List Token
text_tokens [] = []
text_tokens (c ∷ s) = char_data (c ∷ s) ∷ []

abbrev pub closing : GoString → XmlName → List Token
closing text n = text_tokens text ++ end_token n ∷ []

abbrev pub start_of : Node → StartElement
start_of (node n attrs text nodes) = written_start n attrs

-- Node.MarshalXML: the nodes come before the text. `node_body` is what follows the start tag.
unfoldable mutual
  pub node_body : Node → List Token
  node_body (node n attrs text nodes) = marshal_nodes nodes ++ closing text n

  pub marshal_nodes : Nodes → List Token
  marshal_nodes no_nodes = []
  marshal_nodes (next_node n l) = start_token (start_of n) ∷ node_body n ++ marshal_nodes l

abbrev pub marshal_node : Node → List Token
marshal_node n = start_token (start_of n) ∷ node_body n
