-- ===== src/Stanza/Node/RoundTrip.antt =====
-- stanza/node.go: what MarshalXML writes, UnmarshalXML reads.
use mathlib.Core.Path.{subst}
use Prim.Native.Nat.{max}
use go_xmpp.Text.{GoString, is_empty, str, text_eq_iff, text_eq_instance}
use go_xmpp.Result.{ok}
use go_xmpp.Stanza.Packet.{Attribute, Node, Nodes, XmlName, next_node, no_nodes, node}
use go_xmpp.Stanza.Xml.{Fault, Token, end_token, name_eq_iff, start_token}
use go_xmpp.Stanza.Node.{
  append_node, closing, marshal_nodes, node_body, node_rounds, start_of, unmarshal_node,
  without_xmlns, written_start,
}
use go_xmpp.Prelude.{
  All, List, [], ap, append_assoc, arith, false, length, length-append, refl, suc, sym, zero, ℕ,
  ◌++◌, ◌+◌, ◌<◌, ◌∷◌, ◌≡◌, ◌≢◌, ◌≤◌,
}

-- An attribute that is written under its local name, and is not the namespace.
abbrev pub IsPlainAttr : Attribute → Type 0
IsPlainAttr a = (a.name.space ≡ []) × (a.name.local ≢ str "xmlns")

-- Every element has a namespace, so that none takes its parent's when it is read again.
unfoldable mutual
  pub IsPlain : Node → Type 0
  IsPlain (node n attrs text nodes) =
      (is_empty n.space ≡ false) × All IsPlainAttr attrs × ArePlain nodes

  pub ArePlain : Nodes → Type 0
  ArePlain no_nodes = Unit
  ArePlain (next_node n l) = IsPlain n × ArePlain l

unfoldable mutual
  pub height : Node → ℕ
  height (node n attrs text nodes) = suc (heights nodes)

  pub heights : Nodes → ℕ
  heights no_nodes = 0
  heights (next_node n l) = max (height n) (heights l)

append_nodes : Nodes → Nodes → Nodes
append_nodes no_nodes m = m
append_nodes (next_node n l) m = next_node n (append_nodes l m)

append_nodes-append_node :
    (l : Nodes) (n : Node) (m : Nodes)
    → append_nodes (append_node l n) m ≡ append_nodes l (next_node n m)
unfolding append_node append_nodes
append_nodes-append_node no_nodes n m = refl
append_nodes-append_node (next_node k l) n m = ap (next_node k) (append_nodes-append_node l n m)

append_nodes-no_nodes : (l : Nodes) → append_nodes l no_nodes ≡ l
unfolding append_nodes
append_nodes-no_nodes no_nodes = refl
append_nodes-no_nodes (next_node k l) = ap (next_node k) (append_nodes-no_nodes l)

without_xmlns-plain : (l : List Attribute) → All IsPlainAttr l → without_xmlns l ≡ l
unfolding without_xmlns
without_xmlns-plain [] h = refl
without_xmlns-plain (a ∷ l) h =
    ground (arith, without_xmlns-plain l h.1, text_eq_iff a.name.local (str "xmlns"), h.0)

without_xmlns-written :
    (n : XmlName) (l : List Attribute)
    → is_empty n.space ≡ false
    → All IsPlainAttr l
    → without_xmlns (written_start n l).attr ≡ l
unfolding without_xmlns written_start
without_xmlns-written n l e h =
    ground (arith, without_xmlns-plain l h, e, text_eq_iff (str "xmlns") (str "xmlns"))

module _ (n : XmlName) (attrs : List Attribute) (e : is_empty n.space ≡ false)
    (h : All IsPlainAttr attrs) where
  end-read :
      (g depth : ℕ) (text : GoString) (l : Nodes) (fault : Fault) (rest : List Token)
      → node_rounds (suc g) (written_start n attrs) depth text l fault (end_token n ∷ rest)
        ≡ ok (node n attrs text l, rest)
  unfolding node_rounds written_start
  end-read g depth text l fault rest =
      ground (arith, without_xmlns-written n attrs e h, name_eq_iff n n)

  -- The end of an element: its text, if there is one, and its end tag.
  pub closing-read :
      (f depth : ℕ) (text : GoString) (l : Nodes) (fault : Fault) (rest : List Token)
      → length (closing text n) < f
      → node_rounds f (written_start n attrs) depth [] l fault ((closing text n) ++ rest)
        ≡ ok (node n attrs text l, rest)
  unfolding node_rounds
  closing-read zero depth text l fault rest k = absurd (omega arith)
  closing-read (suc g) depth [] l fault rest k = end-read g depth [] l fault rest
  closing-read (suc zero) depth (c ∷ s) l fault rest k = absurd (omega arith)
  closing-read (suc (suc g)) depth (c ∷ s) l fault rest k = end-read g depth (c ∷ s) l fault rest

regroup : (a b c d : List Token) → ((a ++ b) ++ c) ++ d ≡ a ++ ((b ++ c) ++ d)
regroup a b c d = simp append_assoc

lengths : (a b c : List Token) → length ((a ++ b) ++ c) ≡ length a + length (b ++ c)
lengths a b c = omega (arith, length-append (a ++ b) c, length-append a b, length-append b c)

mutual
  unfolding append_nodes node_body marshal_nodes IsPlain ArePlain height heights node_rounds

  node_body-read :
      (n : Node) (f depth : ℕ) (fault : Fault) (rest : List Token)
      → IsPlain n
      → depth + height n ≤ 128
      → length (node_body n) < f
      → node_rounds f (start_of n) depth [] no_nodes fault (node_body n ++ rest) ≡ ok (n, rest)
  node_body-read (node n attrs text nodes) f depth fault rest p k m =
      nodes-read nodes n attrs text f depth no_nodes fault rest p.0 p.1 p.2 (omega arith) m

  nodes-read :
      (l : Nodes) (n : XmlName) (attrs : List Attribute) (text : GoString) (f depth : ℕ)
      (done : Nodes) (fault : Fault) (rest : List Token)
      → is_empty n.space ≡ false
      → All IsPlainAttr attrs
      → ArePlain l
      → depth + heights l < 128
      → length (marshal_nodes l ++ (closing text n)) < f
      → node_rounds f
          (written_start n attrs)
          depth
          []
          done
          fault
          ((marshal_nodes l ++ (closing text n)) ++ rest)
        ≡ ok (node n attrs text (append_nodes done l), rest)
  nodes-read no_nodes n attrs text f depth done fault rest e h p k m =
      subst
        (λ d.
          node_rounds f (written_start n attrs) depth [] done fault ((closing text n) ++ rest)
          ≡ ok (node n attrs text d, rest))
        (sym (append_nodes-no_nodes done)) (closing-read n attrs e h f depth text done fault rest m)
  nodes-read (next_node x l) n attrs text zero depth done fault rest e h p k m =
      absurd (omega arith)
  nodes-read (next_node x l) n attrs text (suc g) depth done fault rest e h p k m =
      let m' : length ((node_body x ++ marshal_nodes l) ++ (closing text n)) < g = omega arith in
      let sizes = lengths (node_body x) (marshal_nodes l) (closing text n) in
      subst
        (λ ts.
          node_rounds (suc g) (written_start n attrs) depth [] done fault
            (start_token (start_of x) ∷ ts)
          ≡ ok (node n attrs text (append_nodes done (next_node x l)), rest))
        (sym (regroup (node_body x) (marshal_nodes l) (closing text n) rest))
        (ground (
          arith,
          node_body-read x g (depth + 1) fault ((marshal_nodes l ++ (closing text n)) ++ rest) p.0
              (omega arith) (omega (arith, m', sizes)),
          nodes-read l n attrs text g depth (append_node done x) fault rest e h p.1 (omega arith)
              (omega (arith, m', sizes)),
          append_nodes-append_node done x l,
        ))

-- A node that is written and read again is the same, whatever follows it, when it is less than 128
-- levels high, every element in it has a namespace, and no attribute has one or is named xmlns.
pub unmarshal-marshal_node :
    (n : Node) (fault : Fault) (rest : List Token)
    → IsPlain n
    → height n < 128
    → unmarshal_node (start_of n) fault (node_body n ++ rest) ≡ ok (n, rest)
unfolding unmarshal_node
unmarshal-marshal_node n fault rest p h =
    node_body-read n (suc (length (node_body n ++ rest))) 1 fault rest p (omega arith)
      (omega (arith, length-append (node_body n) rest))
