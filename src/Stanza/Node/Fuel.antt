-- ===== src/Stanza/Node/Fuel.antt =====
-- The fuel of the loop of stanza/node.go.
use go_xmpp.Text.{GoString, text_eq_instance}
use go_xmpp.Stanza.Packet.{Nodes, no_nodes}
use go_xmpp.Stanza.Xml.{
  Fault, StartElement, Token, char_data, end_token, name_eq_instance, noise, start_token,
}
use go_xmpp.Stanza.Xml.Consumes.{
  Consumes, Consumes-NotLonger, Consumes-if, Consumes-later, Consumes-then, fault_error-IsRefusal,
  text_error-IsRefusal,
}
use go_xmpp.Stanza.Node.{append_node, node_rounds, unmarshal_node, xml_element_max_depth}
use go_xmpp.Prelude.{List, [], arith, leb, length, nat_eq, suc, zero, ℕ, ◌++◌, ◌+◌, ◌<◌, ◌==◌, ◌∷◌}

-- One token is enough fuel for one round.
pub node_rounds-Consumes :
    (f : ℕ) (se : StartElement) (depth : ℕ) (text : GoString) (nodes : Nodes) (fault : Fault)
    (ts : List Token)
    → length ts < f
    → Consumes ts (node_rounds f se depth text nodes fault ts)
unfolding node_rounds Consumes
node_rounds-Consumes zero se depth text nodes fault ts h = absurd (omega arith)
node_rounds-Consumes (suc f) se depth text nodes fault [] h = fault_error-IsRefusal fault
node_rounds-Consumes (suc f) se depth text nodes fault (start_token t ∷ ts) h =
    Consumes-if (start_token t ∷ ts) (leb xml_element_max_depth (depth + 1)) _ _
      (text_error-IsRefusal _)
      (Consumes-then (start_token t) ts _ _
        (Consumes-NotLonger ts _
          (node_rounds-Consumes f t (depth + 1) [] no_nodes fault ts (omega arith)))
        (λ p k.
          node_rounds-Consumes f se depth text (append_node nodes p.0) fault p.1 (omega arith)))
node_rounds-Consumes (suc f) se depth text nodes fault (end_token n ∷ ts) h =
    Consumes-if (end_token n ∷ ts) (n == se.name) _ _ (omega arith) (
      Consumes-later (end_token n) ts _
        (node_rounds-Consumes f se depth text nodes fault ts (omega arith)))
node_rounds-Consumes (suc f) se depth text nodes fault (char_data c ∷ ts) h =
    Consumes-later (char_data c) ts _
      (node_rounds-Consumes f se depth (text ++ c) nodes fault ts (omega arith))
node_rounds-Consumes (suc f) se depth text nodes fault (noise ∷ ts) h =
    Consumes-later noise ts _ (node_rounds-Consumes f se depth text nodes fault ts (omega arith))

pub unmarshal_node-Consumes :
    (se : StartElement) (fault : Fault) (ts : List Token) → Consumes ts (unmarshal_node se fault ts)
unfolding unmarshal_node
unmarshal_node-Consumes se fault ts =
    node_rounds-Consumes (suc (length ts)) se 1 [] no_nodes fault ts (omega arith)
