-- ===== src/Stanza/Node/Extent.antt =====
-- stanza/node.go: where the tokens of a written node end.
use mathlib.Core.Option
use mathlib.Core.Path.{subst}
use go_xmpp.Text.{GoString}
use go_xmpp.Result.{ok}
use go_xmpp.Stanza.Packet.{Node, Nodes, XmlName, next_node, no_nodes, node}
use go_xmpp.Stanza.Xml.{Fault, Token, decode_element, element_tokens, eof, start_token}
use go_xmpp.Stanza.Node.{closing, decode_node, marshal_nodes, node_body, start_of, unmarshal_node}
use go_xmpp.Stanza.Node.RoundTrip.{IsPlain, height, unmarshal-marshal_node}
use go_xmpp.Prelude.{
  List, Option, Option-cases, [], ap, append-nil, append_assoc, arith, inl, inr, none, refl, some,
  suc, sym, ℕ, ◌++◌, ◌<◌, ◌∙◌, ◌∷◌, ◌≡◌,
}

-- The tokens of a split, with others before them.
abbrev pub prefixed :
    List Token → Option (List Token × List Token) → Option (List Token × List Token)
prefixed b o = Option.map (λ p. (b ++ p.0, p.1)) o

pub prefixed-append :
    (a b : List Token) (o : Option (List Token × List Token))
    → prefixed a (prefixed b o) ≡ prefixed (a ++ b) o
prefixed-append a b none = refl
prefixed-append a b (some p) = ap (λ l. some (l, p.1)) (sym (append_assoc a b p.0))

pub prefixed-nil : (o : Option (List Token × List Token)) → o ≡ prefixed [] o
prefixed-nil none = refl
prefixed-nil (some p) = refl

-- Two parts, one behind the other.
pub both :
    (a b us : List Token) (x y z : ℕ)
    → element_tokens x (a ++ (b ++ us)) ≡ prefixed a (element_tokens y (b ++ us))
    → element_tokens y (b ++ us) ≡ prefixed b (element_tokens z us)
    → element_tokens x ((a ++ b) ++ us) ≡ prefixed (a ++ b) (element_tokens z us)
both a b us x y z h k =
    ap (element_tokens x) (append_assoc a b us)
    ∙ h
    ∙ ap (prefixed a) k
    ∙ prefixed-append a b (element_tokens z us)

pub closing-at :
    (text : GoString) (n : XmlName) (d : ℕ) (us : List Token)
    → element_tokens (suc d) (closing text n ++ us)
      ≡ prefixed (closing text n) (element_tokens d us)
unfolding element_tokens
closing-at [] n d us = refl
closing-at (c ∷ s) n d us = elim (Option-cases (element_tokens d us)) [
  | inl q ↦ ground (arith, q)
  | inr (p, q) ↦ ground (arith, q)
]

mutual
  unfolding node_body marshal_nodes element_tokens

  pub node_body-at :
      (n : Node) (d : ℕ) (us : List Token)
      → element_tokens (suc d) (node_body n ++ us) ≡ prefixed (node_body n) (element_tokens d us)
  node_body-at (node n attrs text nodes) d us =
      both (marshal_nodes nodes) (closing text n) us (suc d) (suc d) d
        (nodes-at nodes (suc d) (closing text n ++ us)) (closing-at text n d us)

  nodes-at :
      (l : Nodes) (d : ℕ) (us : List Token)
      → element_tokens d (marshal_nodes l ++ us) ≡ prefixed (marshal_nodes l) (element_tokens d us)
  nodes-at no_nodes d us = prefixed-nil (element_tokens d us)
  nodes-at (next_node n l) d us =
      ap (prefixed (start_token (start_of n) ∷ [])) (
        both (node_body n) (marshal_nodes l) us (suc d) d d
          (node_body-at n d (marshal_nodes l ++ us)) (nodes-at l d us))
      ∙ prefixed-append (start_token (start_of n) ∷ []) (node_body n ++ marshal_nodes l)
          (element_tokens d us)

-- The tokens of a node end with the node.
closing-end :
    (text : GoString) (n : XmlName) (us : List Token)
    → element_tokens 0 (closing text n ++ us) ≡ some (closing text n, us)
unfolding element_tokens
closing-end [] n us = refl
closing-end (c ∷ s) n us = refl

pub node_body-end :
    (n : Node) (us : List Token) → element_tokens 0 (node_body n ++ us) ≡ some (node_body n, us)
unfolding node_body
node_body-end (node n attrs text nodes) us =
    ap (element_tokens 0) (append_assoc (marshal_nodes nodes) (closing text n) us)
    ∙ nodes-at nodes 0 (closing text n ++ us)
    ∙ ap (prefixed (marshal_nodes nodes)) (closing-end text n us)

own_read :
    (n : Node)
    → IsPlain n
    → height n < 128
    → unmarshal_node (start_of n) eof (node_body n) ≡ ok (n, [])
own_read n p h =
    subst (λ ts. unmarshal_node (start_of n) eof ts ≡ ok (n, [])) (append-nil (node_body n))
      (unmarshal-marshal_node n eof [] p h)

-- DecodeElement reads a node that was written, and leaves what follows it.
pub decode_node-marshal_node :
    (n : Node) (fault : Fault) (rest : List Token)
    → IsPlain n
    → height n < 128
    → decode_node (start_of n) fault (node_body n ++ rest) ≡ ok (n, rest)
unfolding decode_node decode_element
decode_node-marshal_node n fault rest p h = ground (arith, node_body-end n rest, own_read n p h)
