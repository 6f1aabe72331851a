-- ===== src/Stanza/Parser/Iqs.antt =====
-- stanza/parser.go and iq.go: an IQ of errors and nodes, from the stream to the packet.
use mathlib.Core.Path.{subst}
use go_xmpp.Text.{GoString, str, text_eq, text_eq_instance}
use go_xmpp.Result.{ok}
use go_xmpp.Stanza.Packet.{Attribute, Err, Iq, Node, XmlName, iq}
use go_xmpp.Stanza.Xml.{
  Fault, StartElement, Token, decode_element, element_tokens, end_token, eof, name_eq_iff,
  name_eq_instance, start_token,
}
use go_xmpp.Stanza.Xml.Loop.{read_children, rounds}
use go_xmpp.Stanza.Node.{node_body, start_of}
use go_xmpp.Stanza.Node.RoundTrip.{IsPlain, height}
use go_xmpp.Stanza.Node.Extent.{decode_node-marshal_node, node_body-at, prefixed, prefixed-append}
use go_xmpp.Stanza.Error.{err_body, err_start}
use go_xmpp.Stanza.Error.RoundTrip.{IsCode, IsCondition}
use go_xmpp.Stanza.IqXml.{iq_child, iq_start, payload_or_node, unmarshal_iq}
use go_xmpp.Stanza.Extensions.{Types, get_iq_extension}
use go_xmpp.Stanza.Parser.{decode_client, decode_start, next_packet, next_xmpp_token}
use go_xmpp.Stanza.Error.Extent.{decode_err-marshal_err, err_body-at}
use go_xmpp.Prelude.{
  All, List, [], ap, append_assoc, arith, false, length, length-append, nat_eq, none, refl, some,
  suc, sym, true, zero, ℕ, ◌++◌, ◌<◌, ◌==◌, ◌∙◌, ◌∷◌, ◌≡◌, ◌≤◌,
}

-- What an IQ holds: an error with a code, or another element.
pub data IqPart : Type 0 where
  error_part : Err → IqPart
  node_part : Node → IqPart

-- The default namespace of the stream.
abbrev pub client : GoString
client = str "jabber:client"

-- The tokens that are read of what MarshalXML writes for a part.
abbrev pub part_start : IqPart → StartElement
part_start (error_part x) = err_start client x
part_start (node_part n) = start_of n

abbrev pub part_body : IqPart → List Token
part_body (error_part x) = err_body client x
part_body (node_part n) = node_body n

unfoldable pub parts_tokens : List IqPart → List Token
parts_tokens [] = []
parts_tokens (p ∷ l) = (start_token (part_start p) ∷ part_body p) ++ parts_tokens l

-- What a part does to the IQ.
abbrev pub with_part : Iq → IqPart → Iq
with_part q (error_part x) = record q { error = some x }
with_part q (node_part n) = record q { any = some n }

unfoldable pub with_parts : Iq → List IqPart → Iq
with_parts q [] = q
with_parts q (p ∷ l) = with_parts (with_part q p) l

-- An error that is written in full, or a node of no registered type that is, and is no error.
unfoldable pub IsPart : Types → IqPart → Type 0
IsPart ext (error_part x) = IsCode x.code × IsCondition x.reason
IsPart ext (node_part n) =
    IsPlain n
    × (height n < 128)
    × (((start_of n).name.local == str "error") ≡ false)
    × (get_iq_extension ext (start_of n).name ≡ none)

err_start-is_error : (x : Err) → ((err_start client x).name.local == str "error") ≡ true
unfolding err_start str text_eq
err_start-is_error x = refl

error-read :
    (ext : Types) (x : Err) (q : Iq) (fault : Fault) (ts : List Token)
    → IsCode x.code
    → IsCondition x.reason
    → iq_child ext (err_start client x) q fault (err_body client x ++ ts)
      ≡ ok (record q { error = some x }, ts)
unfolding iq_child
error-read ext x q fault ts h k =
    ground (arith, err_start-is_error x, decode_err-marshal_err client x fault ts h k)

any-read :
    (ext : Types) (n : Node) (q : Iq) (fault : Fault) (ts : List Token)
    → IsPlain n
    → height n < 128
    → payload_or_node ext none (start_of n) q fault (node_body n ++ ts)
      ≡ ok (record q { any = some n }, ts)
unfolding payload_or_node
any-read ext n q fault ts h k = ground (arith, decode_node-marshal_node n fault ts h k)

child_node :
    (ext : Types) (n : Node) (q : Iq) (fault : Fault) (ts : List Token)
    → ((start_of n).name.local == str "error") ≡ false
    → iq_child ext (start_of n) q fault ts
      ≡ payload_or_node ext (get_iq_extension ext (start_of n).name) (start_of n) q fault ts
unfolding iq_child
child_node ext n q fault ts h = ground (arith, h)

part-read :
    (ext : Types) (p : IqPart) (q : Iq) (fault : Fault) (ts : List Token)
    → IsPart ext p
    → iq_child ext (part_start p) q fault (part_body p ++ ts) ≡ ok (with_part q p, ts)
unfolding IsPart
part-read ext (error_part x) q fault ts h = error-read ext x q fault ts h.0 h.1
part-read ext (node_part n) q fault ts h =
    child_node ext n q fault (node_body n ++ ts) h.2
    ∙ ap (λ o. payload_or_node ext o (start_of n) q fault (node_body n ++ ts)) h.3
    ∙ any-read ext n q fault ts h.0 h.1

part_body-at :
    (p : IqPart) (d : ℕ) (us : List Token)
    → element_tokens (suc d) (part_body p ++ us) ≡ prefixed (part_body p) (element_tokens d us)
part_body-at (error_part x) d us = err_body-at client x d us
part_body-at (node_part n) d us = node_body-at n d us

part-at :
    (p : IqPart) (d : ℕ) (us : List Token)
    → element_tokens d ((start_token (part_start p) ∷ part_body p) ++ us)
      ≡ prefixed (start_token (part_start p) ∷ part_body p) (element_tokens d us)
unfolding element_tokens
part-at p d us =
    ap (prefixed (start_token (part_start p) ∷ [])) (part_body-at p d us)
    ∙ prefixed-append (start_token (part_start p) ∷ []) (part_body p) (element_tokens d us)

parts-split :
    (l : List IqPart) (own : XmlName) (rest : List Token)
    → element_tokens 0 (parts_tokens l ++ end_token own ∷ rest)
      ≡ some (parts_tokens l ++ end_token own ∷ [], rest)
unfolding element_tokens parts_tokens
parts-split [] own rest = refl
parts-split (p ∷ l) own rest =
    ap (element_tokens 0) (
      append_assoc (start_token (part_start p) ∷ part_body p) (parts_tokens l)
        (end_token own ∷ rest))
    ∙ part-at p 0 (parts_tokens l ++ end_token own ∷ rest)
    ∙ ap (prefixed (start_token (part_start p) ∷ part_body p)) (parts-split l own rest)
    ∙ ap (λ ts. some (ts, rest))
        (sym (
          append_assoc (start_token (part_start p) ∷ part_body p) (parts_tokens l)
            (end_token own ∷ [])))

module _ (ext : Types) (own : XmlName) (fault : Fault) (rest : List Token) where
  parts-read :
      (l : List IqPart) (q : Iq) (f : ℕ)
      → All (IsPart ext) l
      → length l < f
      → rounds (iq_child ext) own f q fault (parts_tokens l ++ end_token own ∷ rest)
        ≡ ok (with_parts q l, rest)
  unfolding rounds parts_tokens with_parts
  parts-read l q zero h k = absurd (omega arith)
  parts-read [] q (suc f) h k = ground (arith, name_eq_iff own own)
  parts-read (p ∷ l) q (suc f) h k =
      subst
        (λ ts.
          rounds (iq_child ext) own (suc f) q fault ts ≡ ok (with_parts (with_part q p) l, rest))
        (sym (
          append_assoc (start_token (part_start p) ∷ part_body p) (parts_tokens l)
            (end_token own ∷ rest)))
        (ground (
          arith,
          part-read ext p q fault (parts_tokens l ++ end_token own ∷ rest) h.0,
          parts-read l (with_part q p) f h.1,
        ))

parts-length : (l : List IqPart) → length l ≤ length (parts_tokens l)
unfolding parts_tokens
parts-length [] = omega arith
parts-length (p ∷ l) = omega (
  arith,
  parts-length l,
  length-append (start_token (part_start p) ∷ part_body p) (parts_tokens l),
)

abbrev pub iq_tag : List Attribute → StartElement
iq_tag l = record { name = record { space = str "jabber:client"; local = str "iq" }; attr = l }

module _ (ext : Types) where
  iq-read :
      (se : StartElement) (l : List IqPart) (fault : Fault) (rest : List Token)
      → All (IsPart ext) l
      → unmarshal_iq ext se fault (parts_tokens l ++ end_token se.name ∷ rest)
        ≡ ok (with_parts (iq_start se.attr) l, rest)
  unfolding unmarshal_iq read_children
  iq-read se l fault rest h =
      parts-read ext se.name fault rest l (iq_start se.attr)
        (suc (length (parts_tokens l ++ end_token se.name ∷ rest))) h
        (omega (arith, parts-length l, length-append (parts_tokens l) (end_token se.name ∷ rest)))

  -- NextPacket on an IQ of errors and other elements, as they are read where MarshalXML wrote them in a
  -- stream with the default namespace jabber:client: the IQ has the attributes of the start tag but the
  -- language, the last error, and the last other element as a node; what follows
  -- the IQ is left. The errors have a code other than 0 and a reason but "text" and "gone"; the nodes are
  -- less than 128 levels high, have namespaces, are not named error, and have no registered type.
  pub next_packet-iq :
      (attrs : List Attribute) (l : List IqPart) (fault : Fault) (rest : List Token)
      → All (IsPart ext) l
      → next_packet ext fault
          (start_token (iq_tag attrs) ∷ parts_tokens l ++ end_token (iq_tag attrs).name ∷ rest)
        ≡ ok (iq (with_parts (iq_start attrs) l), rest)
  unfolding next_packet next_xmpp_token decode_start decode_client decode_element str text_eq
  next_packet-iq attrs l fault rest h =
      ground (arith, parts-split l (iq_tag attrs).name rest, iq-read (iq_tag attrs) l eof [] h)
