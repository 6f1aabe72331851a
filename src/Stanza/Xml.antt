-- ===== src/Stanza/Xml.antt =====
-- What package stanza uses of encoding/xml: the tokens of a Decoder, the loop that every UnmarshalXML
-- method runs over them, and DecodeElement.
pub mod Loop
pub mod Consumes
pub mod Elements
use mathlib.Core.Option
use go_xmpp.Text.{GoString, str, text_eq_iff, text_eq_instance}
use go_xmpp.Result.{GoError, Result, err, ok, text_error, ◌>>=◌}
use go_xmpp.Stanza.Packet.{Attribute, XmlName}
use go_xmpp.Prelude.{
  Bool, Comparable, List, Option, [], arith, if◌then◌else◌, map, nat_eq, none, some, suc, true,
  zero, ℕ, ◌&&◌, ◌++◌, ◌-◌, ◌==◌, ◌↔◌, ◌∷◌, ◌≡◌,
}

pub record StartElement : Type 0 where
  pub name : XmlName
  pub attr : List Attribute

-- xml.Token; `noise` is a comment, a processing instruction or a directive.
pub data Token : Type 0 where
  start_token : StartElement → Token
  end_token : XmlName → Token
  char_data : GoString → Token
  noise : Token

-- What Token returns after the last token: io.EOF, or another error with its message.
pub data Fault : Type 0 where
  eof : Fault
  syntax_fault : GoString → Fault

abbrev pub fault_error : Fault → GoError
fault_error eof = text_error (str "EOF")
fault_error (syntax_fault m) = text_error m

unfoldable pub name_eq : XmlName → XmlName → Bool
name_eq a b = a.space == b.space && a.local == b.local

pub name_eq_iff : (a b : XmlName) → (name_eq a b ≡ true) ↔ (a ≡ b)
unfolding name_eq
name_eq_iff a b = ground (arith, text_eq_iff a.space b.space, text_eq_iff a.local b.local)

instance abbrev pub name_eq_instance : Comparable XmlName
name_eq_instance = record { equal = name_eq; equal_iff = name_eq_iff }

-- The value of the last attribute with a local name, which is the one that the loops over `start.Attr`
-- leave, or what the field held before.
unfoldable pub last_attr : GoString → List Attribute → GoString → GoString
last_attr key [] held = held
last_attr key (a ∷ l) held = last_attr key l (if a.name.local == key then a.value else held)

-- A decoder is its fault and the tokens that it still has; a call returns the tokens left.
abbrev pub Decode : Type 0 → Type 0
Decode A = Fault → List Token → Result (A × List Token)

-- The tokens up to the end tag of an element that is open, with that tag, and those behind it.
unfoldable pub element_tokens : ℕ → List Token → Option (List Token × List Token)
element_tokens depth [] = none
element_tokens zero (end_token n ∷ ts) = some (end_token n ∷ [], ts)
element_tokens (suc depth) (end_token n ∷ ts) =
    Option.map (λ p. (end_token n ∷ p.0, p.1)) (element_tokens depth ts)
element_tokens depth (start_token s ∷ ts) =
    Option.map (λ p. (start_token s ∷ p.0, p.1)) (element_tokens (suc depth) ts)
element_tokens depth (char_data s ∷ ts) =
    Option.map (λ p. (char_data s ∷ p.0, p.1)) (element_tokens depth ts)
element_tokens depth (noise ∷ ts) = Option.map (λ p. (noise ∷ p.0, p.1)) (element_tokens depth ts)

abbrev pub unread : GoError
unread = text_error (str "xml: UnmarshalXML did not consume entire element")

abbrev pub all_read : {A : Type 0} → List Token → A × List Token → Result (A × List Token)
all_read rest (a, []) = ok (a, rest)
all_read rest (a, t ∷ ts) = err unread

abbrev pub cut_off : {A : Type 0} → A × List Token → Result (A × List Token)
cut_off p = err unread

-- DecodeElement into a value with a method UnmarshalXML: the method sees the end of its own element as
-- the end of the input, and must have read all of it.
abbrev pub decode_own :
    {A : Type 0}
    → (StartElement → Decode A)
    → StartElement
    → Fault
    → List Token
    → Option (List Token × List Token)
    → Result (A × List Token)
decode_own unmarshal se fault ts none = unmarshal se fault ts >>= cut_off
decode_own unmarshal se fault ts (some own) = unmarshal se eof own.0 >>= all_read own.1

unfoldable pub decode_element : {A : Type 0} → (StartElement → Decode A) → StartElement → Decode A
decode_element unmarshal se fault ts = decode_own unmarshal se fault ts (element_tokens 0 ts)

-- The text of an element, without that of the elements in it.
unfoldable pub text_content : ℕ → List Token → GoString
text_content depth [] = []
text_content depth (end_token n ∷ ts) = text_content (depth - 1) ts
text_content depth (start_token s ∷ ts) = text_content (suc depth) ts
text_content zero (char_data s ∷ ts) = s ++ text_content zero ts
text_content (suc depth) (char_data s ∷ ts) = text_content (suc depth) ts
text_content depth (noise ∷ ts) = text_content depth ts

-- DecodeElement into a value that is made from the element's tokens, such as a string.
abbrev pub made_of :
    {A : Type 0}
    → (List Token → Result A)
    → Fault
    → Option (List Token × List Token)
    → Result (A × List Token)
made_of make fault none = err (fault_error fault)
made_of make fault (some own) = make own.0 >>= λ a. ok (a, own.1)

unfoldable pub decode_made : {A : Type 0} → (List Token → Result A) → Decode A
decode_made make fault ts = made_of make fault (element_tokens 0 ts)

unfoldable pub decode_text : StartElement → Decode GoString
unfolding decode_made text_content
decode_text se = decode_made (λ own. ok (text_content 0 own))
