-- ===== src/Stanza/Parser/Refusals.antt =====
-- stanza/parser.go: elements of known packets that are not read.
use go_xmpp.Text.{GoString, mem_text, str, text_eq, text_eq_iff, text_eq_instance}
use go_xmpp.Result.{GoError, err, ok, text_error}
use go_xmpp.Stanza.Packet.{Attribute, Message, XmlName, sm_failed}
use go_xmpp.Stanza.Xml.{
  Fault, StartElement, Token, decode_element, decode_made, element_tokens, end_token, eof,
  name_eq_iff, name_eq_instance, start_token,
}
use go_xmpp.Stanza.Xml.Loop.{read_children, rounds}
use go_xmpp.Stanza.Error.{stanza_errors}
use go_xmpp.Stanza.Failed.{
  condition, failed_child, group_error_names, stanza_error_names, unmarshal_failed,
}
use go_xmpp.Stanza.Extensions.{Types, get_msg_extension}
use go_xmpp.Stanza.Parser.Nonza.{decode_nonza}
use go_xmpp.Stanza.Parser.{decode_start, next_packet, next_xmpp_token}
use go_xmpp.Stanza.Message.{message_child, message_element, message_field}
use mathlib.Core.Path.{subst}
use go_xmpp.Prelude.{
  Bool, Bool-cases, List, Option-cases, [], ap, arith, false, if◌then◌else◌, inl, inr, nat_eq, none,
  not, refl, some, sym, true, ◌&&◌, ◌==◌, ◌∙◌, ◌∷◌, ◌≡◌, ◌≢◌,
}

abbrev pub failed_tag : List Attribute → StartElement
failed_tag l = record {
  name = record { space = str "urn:xmpp:sm:3"; local = str "failed" };
  attr = l;
}

abbrev pub unknown_condition : GoError
unknown_condition = text_error (str "error is unknown")

failed_first :
    (se x : StartElement) (fault : Fault) (ts : List Token)
    → mem_text x.name.local group_error_names ≡ false
    → unmarshal_failed se fault (start_token x ∷ ts) ≡ err unknown_condition
unfolding unmarshal_failed read_children rounds failed_child
failed_first se x fault ts h = ground (arith, h)

decode_failed_first :
    (se x : StartElement) (fault : Fault) (ts : List Token)
    → mem_text x.name.local group_error_names ≡ false
    → decode_element unmarshal_failed se fault (start_token x ∷ ts) ≡ err unknown_condition
unfolding decode_element element_tokens
decode_failed_first se x fault ts h = elim (Option-cases (element_tokens 1 ts)) [
  | inl q ↦ ground (arith, q, failed_first se x fault ts h)
  | inr (p, q) ↦ ground (arith, q, failed_first se x eof p.0 h)
]

-- The conditions that are read: those with a type in stanza/stanza_errors.go, but "reset".
abbrev pub is_read : GoString → Bool
is_read n = mem_text n stanza_error_names && not (n == str "reset")

unfoldable without : GoString → List GoString → List GoString
without r [] = []
without r (s ∷ l) = let rest = without r l in if s == r then rest else s ∷ rest

mem_text-without :
    (n r : GoString) (l : List GoString) → mem_text n (without r l) ≡ (mem_text n l && not (n == r))
unfolding mem_text without
mem_text-without n r [] = refl
mem_text-without n r (s ∷ l) =
    ground (arith, mem_text-without n r l, text_eq_iff s n, text_eq_iff s r, text_eq_iff n r)

without-stanza_error_names : without (str "reset") stanza_error_names ≡ group_error_names
unfolding without str text_eq
without-stanza_error_names = refl

is_read-group_error_names : (n : GoString) → mem_text n group_error_names ≡ is_read n
is_read-group_error_names n =
    ap (mem_text n) (sym without-stanza_error_names)
    ∙ mem_text-without n (str "reset") stanza_error_names

-- A name that has no registered type, and is not that of a standard element.
abbrev pub IsUnknown : Types → XmlName → Type 0
IsUnknown ext n =
    (get_msg_extension ext n ≡ none)
    × (n.local ≢ str "body")
    × (n.local ≢ str "thread")
    × (n.local ≢ str "subject")
    × (n.local ≢ str "error")

unknown_field :
    (se : StartElement) (m : Message) (fault : Fault) (ts : List Token)
    → (se.name.local ≢ str "body")
      × (se.name.local ≢ str "thread")
      × (se.name.local ≢ str "subject")
      × (se.name.local ≢ str "error")
    → message_field se m fault ts ≡ ok (m, ts)
unfolding message_field
unknown_field se m fault ts h = ground (
  arith,
  h.0,
  h.1,
  h.2,
  h.3,
  text_eq_iff se.name.local (str "body"),
  text_eq_iff se.name.local (str "thread"),
  text_eq_iff se.name.local (str "subject"),
  text_eq_iff se.name.local (str "error"),
)

pub unknown_child :
    (ext : Types) (se : StartElement) (m : Message) (fault : Fault) (ts : List Token)
    → IsUnknown ext se.name
    → message_child ext se m fault ts ≡ ok (m, ts)
unfolding message_child message_element
unknown_child ext se m fault ts h =
    subst (λ o. message_element ext o se m fault ts ≡ ok (m, ts)) (sym h.0)
      (unknown_field se m fault ts (h.1, h.2, h.3, h.4))

one_condition :
    (l : List Attribute) (x : StartElement) (fault : Fault) (ts : List Token)
    → x.name.space ≡ stanza_errors
    → mem_text x.name.local group_error_names ≡ true
    → decode_element unmarshal_failed
        (failed_tag l)
        fault
        (start_token x ∷ end_token x.name ∷ end_token (failed_tag l).name ∷ ts)
      ≡ ok (some x.name.local, ts)
unfolding decode_element element_tokens unmarshal_failed read_children rounds failed_child condition
    decode_made
one_condition l x fault ts s h = ground (
  arith,
  s,
  h,
  text_eq_iff stanza_errors stanza_errors,
  name_eq_iff (failed_tag l).name (failed_tag l).name,
)

module _ (types : Types) (fault : Fault) where
  failed_unknown :
      (l : List Attribute) (x : StartElement) (ts : List Token)
      → mem_text x.name.local group_error_names ≡ false
      → next_packet types fault (start_token (failed_tag l) ∷ start_token x ∷ ts)
        ≡ err unknown_condition
  unfolding next_packet next_xmpp_token decode_start decode_nonza str text_eq
  failed_unknown l x ts h = ground (arith, decode_failed_first (failed_tag l) x fault ts h)

  failed_known :
      (l : List Attribute) (x : StartElement) (ts : List Token)
      → x.name.space ≡ stanza_errors
      → mem_text x.name.local group_error_names ≡ true
      → next_packet types fault (
          start_token (failed_tag l)
          ∷ start_token x
          ∷ end_token x.name
          ∷ end_token (failed_tag l).name
          ∷ ts)
        ≡ ok (sm_failed (some x.name.local), ts)
  unfolding next_packet next_xmpp_token decode_start decode_nonza str text_eq
  failed_known l x ts s h = ground (arith, one_condition l x fault ts s h)

  -- NextPacket on a <failed/> of stream management with one condition in the namespace of the stanza
  -- errors: if stanza/stanza_errors.go has a type for the condition, and it is not "reset", then it is
  -- the SMFailed with that condition, and what follows is left; for every other condition, as
  -- "item-not-found" of XEP-0198, it is the error "error is unknown".
  pub next_packet-failed :
      (l : List Attribute) (x : StartElement) (ts : List Token)
      → x.name.space ≡ stanza_errors
      → next_packet types fault (
          start_token (failed_tag l)
          ∷ start_token x
          ∷ end_token x.name
          ∷ end_token (failed_tag l).name
          ∷ ts)
        ≡ (if is_read x.name.local
            then ok (sm_failed (some x.name.local), ts)
            else err unknown_condition)
  next_packet-failed l x ts s = elim (Bool-cases (is_read x.name.local)) [
    | inl r ↦ ground (arith, r, failed_known l x ts s (is_read-group_error_names x.name.local ∙ r))
    | inr r ↦ ground (
      arith,
      r,
      failed_unknown l x (end_token x.name ∷ end_token (failed_tag l).name ∷ ts)
          (is_read-group_error_names x.name.local ∙ r),
    )
  ]
