-- ===== src/Stanza/Message/Fields.antt =====
-- stanza/message.go: the text elements of a message.
use go_xmpp.Text.{GoString, str, text_eq_iff, text_eq_instance}
use go_xmpp.Result.{ok}
use go_xmpp.Stanza.Packet.{Message, XmlName}
use go_xmpp.Stanza.Xml.{
  Fault, Token, decode_made, decode_text, element_tokens, end_token, name_eq_iff, name_eq_instance,
  start_token, text_content,
}
use go_xmpp.Stanza.Xml.Loop.{rounds}
use go_xmpp.Stanza.Node.{closing}
use go_xmpp.Stanza.Extensions.{Types, get_msg_extension}
use go_xmpp.Stanza.Message.{message_child, message_element, message_field}
use mathlib.Core.Path.{subst}
use go_xmpp.Prelude.{
  All, List, [], append-nil, append_assoc, arith, if◌then◌else◌, length, nat_eq, none, refl, some,
  suc, sym, zero, ℕ, ◌++◌, ◌<◌, ◌==◌, ◌∷◌, ◌≡◌, ◌⊎◌,
}

-- An element with a text and no attributes.
pub record TextElement : Type 0 where
  pub tag : XmlName
  pub text : GoString

abbrev pub element_of : TextElement → List Token
element_of e = start_token (record { name = e.tag; attr = [] }) ∷ closing e.text e.tag

unfoldable pub elements_of : List TextElement → List Token
elements_of [] = []
elements_of (e ∷ l) = element_of e ++ elements_of l

-- What one such element does to the message.
unfoldable pub with_field : Message → TextElement → Message
with_field m e =
    if e.tag.local == str "body"
    then record m { body = e.text }
    else if e.tag.local == str "thread"
    then record m { thread = e.text }
    else if e.tag.local == str "subject"
    then record m { subject = e.text }
    else m

unfoldable pub with_fields : Message → List TextElement → Message
with_fields m [] = m
with_fields m (e ∷ l) = with_fields (with_field m e) l

abbrev pub IsField : Types → TextElement → Type 0
IsField ext e =
    (get_msg_extension ext e.tag ≡ none)
    × ((e.tag.local ≡ str "body") ⊎ (e.tag.local ≡ str "thread") ⊎ (e.tag.local ≡ str "subject"))

closing-split :
    (text : GoString) (n : XmlName) (ts : List Token)
    → element_tokens 0 (closing text n ++ ts) ≡ some (closing text n, ts)
unfolding element_tokens
closing-split [] n ts = refl
closing-split (c ∷ s) n ts = refl

closing-text : (text : GoString) (n : XmlName) → text_content 0 (closing text n) ≡ text
unfolding text_content
closing-text [] n = refl
closing-text (c ∷ s) n = append-nil (c ∷ s)

text-decoded :
    (e : TextElement) (fault : Fault) (ts : List Token)
    → decode_text (record { name = e.tag; attr = [] }) fault (closing e.text e.tag ++ ts)
      ≡ ok (e.text, ts)
unfolding decode_text decode_made
text-decoded e fault ts = ground (arith, closing-split e.text e.tag ts, closing-text e.text e.tag)

field-decoded :
    (m : Message) (e : TextElement) (fault : Fault) (ts : List Token)
    → (e.tag.local ≡ str "body") ⊎ (e.tag.local ≡ str "thread") ⊎ (e.tag.local ≡ str "subject")
    → message_field (record { name = e.tag; attr = [] }) m fault (closing e.text e.tag ++ ts)
      ≡ ok (with_field m e, ts)
unfolding message_field with_field
field-decoded m e fault ts h = ground (
  arith,
  h,
  text-decoded e fault ts,
  text_eq_iff e.tag.local (str "body"),
  text_eq_iff e.tag.local (str "thread"),
  text_eq_iff e.tag.local (str "subject"),
)

field-read :
    (ext : Types) (m : Message) (e : TextElement) (fault : Fault) (ts : List Token)
    → IsField ext e
    → message_child ext (record { name = e.tag; attr = [] }) m fault (closing e.text e.tag ++ ts)
      ≡ ok (with_field m e, ts)
unfolding message_child message_element
field-read ext m e fault ts h =
    subst
      (λ o.
        message_element ext o (record { name = e.tag; attr = [] }) m fault
          (closing e.text e.tag ++ ts)
        ≡ ok (with_field m e, ts))
      (sym h.0) (field-decoded m e fault ts h.1)

pub element-append :
    (e : TextElement) (l : List TextElement) (ts : List Token)
    → elements_of (e ∷ l) ++ ts ≡ element_of e ++ (elements_of l ++ ts)
unfolding elements_of
element-append e l ts = append_assoc (element_of e) (elements_of l) ts

module _ (ext : Types) (own : XmlName) (fault : Fault) (rest : List Token) where
  pub fields-read :
      (l : List TextElement) (m : Message) (f : ℕ)
      → All (IsField ext) l
      → length l < f
      → rounds (message_child ext) own f m fault (elements_of l ++ end_token own ∷ rest)
        ≡ ok (with_fields m l, rest)
  unfolding rounds elements_of with_fields
  fields-read l m zero h k = absurd (omega arith)
  fields-read [] m (suc f) h k = ground (arith, name_eq_iff own own)
  fields-read (e ∷ l) m (suc f) h k =
      subst
        (λ ts.
          rounds (message_child ext) own (suc f) m fault ts
          ≡ ok (with_fields (with_field m e) l, rest))
        (sym (element-append e l (end_token own ∷ rest)))
        (ground (
          arith,
          field-read ext m e fault (elements_of l ++ end_token own ∷ rest) h.0,
          fields-read l (with_field m e) f h.1,
        ))
