-- ===== src/Stanza/Parser/Messages.antt =====
-- stanza/parser.go and message.go: a message of text elements, from the stream to the packet.
use mathlib.Core.Option
use mathlib.Core.Path.{subst}
use go_xmpp.Text.{GoString, str, text_eq}
use go_xmpp.Result.{ok}
use go_xmpp.Stanza.Packet.{Attribute, XmlName, message}
use go_xmpp.Stanza.Xml.{
  Fault, StartElement, Token, decode_element, element_tokens, end_token, eof, name_eq_instance,
  start_token,
}
use go_xmpp.Stanza.Xml.Loop.{read_children}
use go_xmpp.Stanza.Node.{closing}
use go_xmpp.Stanza.Message.{new_message, read_attrs, unmarshal_message}
use go_xmpp.Stanza.Message.Fields.{
  IsField, TextElement, element-append, element_of, elements_of, fields-read, with_fields,
}
use go_xmpp.Stanza.Extensions.{Types}
use go_xmpp.Stanza.Parser.{decode_client, decode_start, next_packet, next_xmpp_token}
use go_xmpp.Prelude.{
  All, List, Option-cases, [], arith, inl, inr, length, length-append, refl, some, suc, sym, ◌++◌,
  ◌∷◌, ◌≡◌, ◌≤◌,
}

closing-inside :
    (text : GoString) (n : XmlName) (us : List Token)
    → element_tokens 1 (closing text n ++ us)
      ≡ Option.map (λ p. (closing text n ++ p.0, p.1)) (element_tokens 0 us)
unfolding element_tokens
closing-inside [] n us = refl
closing-inside (c ∷ s) n us = elim (Option-cases (element_tokens 0 us)) [
  | inl q ↦ ground (arith, q)
  | inr (p, q) ↦ ground (arith, q)
]

element-split :
    (e : TextElement) (us own rest : List Token)
    → element_tokens 0 us ≡ some (own, rest)
    → element_tokens 0 (element_of e ++ us) ≡ some (element_of e ++ own, rest)
unfolding element_tokens
element-split e us own rest q = ground (arith, closing-inside e.text e.tag us, q)

elements-split :
    (l : List TextElement) (own : XmlName) (rest : List Token)
    → element_tokens 0 (elements_of l ++ end_token own ∷ rest)
      ≡ some (elements_of l ++ end_token own ∷ [], rest)
unfolding element_tokens elements_of
elements-split [] own rest = refl
elements-split (e ∷ l) own rest =
    subst (λ us. element_tokens 0 us ≡ some ((elements_of (e ∷ l)) ++ end_token own ∷ [], rest))
      (sym (element-append e l (end_token own ∷ rest)))
      (subst
        (λ us.
          element_tokens 0 (element_of e ++ (elements_of l ++ end_token own ∷ rest))
          ≡ some (us, rest))
        (sym (element-append e l (end_token own ∷ [])))
        (element-split e (elements_of l ++ end_token own ∷ rest)
          (elements_of l ++ end_token own ∷ []) rest (elements-split l own rest)))

pub elements-length : (l : List TextElement) → length l ≤ length (elements_of l)
unfolding elements_of
elements-length [] = omega arith
elements-length (e ∷ l) =
    omega (arith, elements-length l, length-append (element_of e) (elements_of l))

abbrev pub message_tag : List Attribute → StartElement
message_tag l = record {
  name = record { space = str "jabber:client"; local = str "message" };
  attr = l;
}

module _ (ext : Types) where
  message-read :
      (se : StartElement) (l : List TextElement) (fault : Fault) (rest : List Token)
      → All (IsField ext) l
      → unmarshal_message ext se fault (elements_of l ++ end_token se.name ∷ rest)
        ≡ ok (with_fields (new_message (read_attrs se.attr)) l, rest)
  unfolding unmarshal_message read_children
  message-read se l fault rest h =
      fields-read ext se.name fault rest l (new_message (read_attrs se.attr))
        (suc (length (elements_of l ++ end_token se.name ∷ rest))) h
        (omega (arith, elements-length l, length-append (elements_of l) (end_token se.name ∷ rest)))

  -- NextPacket on a message of text elements: the message has the attributes of the start tag, and the
  -- body, thread and subject of the last element of that name, when no extension is registered for
  -- these names; what follows the message is left.
  pub next_packet-message :
      (attrs : List Attribute) (l : List TextElement) (fault : Fault) (rest : List Token)
      → All (IsField ext) l
      → next_packet ext fault (
          start_token (message_tag attrs) ∷ elements_of l
          ++ end_token (message_tag attrs).name ∷ rest)
        ≡ ok (message (with_fields (new_message (read_attrs attrs)) l), rest)
  unfolding next_packet next_xmpp_token decode_start decode_client decode_element str text_eq
  next_packet-message attrs l fault rest h = ground (
    arith,
    elements-split l (message_tag attrs).name rest,
    message-read (message_tag attrs) l eof [] h,
  )
