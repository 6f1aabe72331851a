-- ===== src/Stanza/Parser/Nonza/Progress.antt =====
-- The decoders of stanza/stream_management.go return their errors, and read their elements.
use go_xmpp.Text.{GoString, str, text_eq_instance, trim_space}
use go_xmpp.Text.Decimal.{read_digits}
use go_xmpp.Result.{GoError, Result, Result-cases, err, ok, ◌>>=◌}
use go_xmpp.Stanza.Packet.{
  Attribute, sm_answer, sm_enabled, sm_failed, sm_request, sm_resume, sm_resumed,
}
use go_xmpp.Stanza.Xml.{Fault, StartElement, Token, name_eq_instance}
use go_xmpp.Stanza.Xml.Consumes.{Consumes, Consumes-if, IsRefusal}
use go_xmpp.Stanza.Parser.Nonza.{
  decode_nonza, digits_of, make_answer, make_enabled, make_request, make_resumed, read_uint,
  uint_attr,
}
use go_xmpp.Stanza.Parser.Progress.{decode_packet-Consumes}
use go_xmpp.Stanza.Parser.Progress.Fields.{
  decode_failed-Consumes, refused-Consumes, with_value-Consumes,
}
use go_xmpp.Stanza.Xml.Elements.{ok-IsRefusal}
use go_xmpp.Prelude.{
  Bool-cases, List, Option, Option-cases, [], arith, inl, inr, nat_eq, none, refl, some, ℕ, ◌==◌,
  ◌∷◌, ◌≡◌,
}

digits_of-IsRefusal : (s : GoString) (e : GoError) → digits_of s ≡ err e → IsRefusal e
unfolding digits_of
digits_of-IsRefusal [] e q = ground arith
digits_of-IsRefusal (c ∷ s) e q = elim (Option-cases (read_digits (c ∷ s) 0)) [
  | inl k ↦ ground (arith, k)
  | inr (n, k) ↦ ground (arith, k)
]

read_uint-IsRefusal : (s : GoString) (e : GoError) → read_uint s ≡ err e → IsRefusal e
unfolding read_uint
read_uint-IsRefusal [] e q = ground arith
read_uint-IsRefusal (c ∷ s) e q = digits_of-IsRefusal (trim_space (c ∷ s)) e q

uint_attr-IsRefusal :
    (key : GoString) (l : List Attribute) (held : Option ℕ) (e : GoError)
    → uint_attr key l held ≡ err e
    → IsRefusal e
unfolding uint_attr
uint_attr-IsRefusal key [] held e q = ground arith
uint_attr-IsRefusal key (a ∷ l) held e q = elim (Bool-cases (a.name.local == key)) [
  | inl k ↦ elim (Result-cases (read_uint a.value)) [
    | inl (n, r) ↦ uint_attr-IsRefusal key l (some n) e (ground (arith, k, r))
    | inr (x, r) ↦ ground (arith, k, r, read_uint-IsRefusal a.value x r)
  ]
  | inr k ↦ uint_attr-IsRefusal key l held e (ground (arith, k))
]

then_ok-IsRefusal :
    {A B : Type 0} (r : Result A) (f : A → B)
    → ((e : GoError) → r ≡ err e → IsRefusal e)
    → (e : GoError) → (r >>= λ a. ok (f a)) ≡ err e
    → IsRefusal e
then_ok-IsRefusal (ok a) f h e q = ground arith
then_ok-IsRefusal (err x) f h e q = ground (arith, h x refl)

make_enabled-IsRefusal :
    (se : StartElement) (own : List Token) (e : GoError) → make_enabled se own ≡ err e → IsRefusal e
unfolding make_enabled
make_enabled-IsRefusal se own =
    then_ok-IsRefusal (uint_attr (str "max") se.attr none) _
      (uint_attr-IsRefusal (str "max") se.attr none)

make_resumed-IsRefusal :
    (se : StartElement) (own : List Token) (e : GoError) → make_resumed se own ≡ err e → IsRefusal e
unfolding make_resumed
make_resumed-IsRefusal se own =
    then_ok-IsRefusal (uint_attr (str "h") se.attr none) _
      (uint_attr-IsRefusal (str "h") se.attr none)

make_answer-IsRefusal :
    (se : StartElement) (own : List Token) (e : GoError) → make_answer se own ≡ err e → IsRefusal e
unfolding make_answer
make_answer-IsRefusal se own =
    then_ok-IsRefusal (uint_attr (str "h") se.attr none) _
      (uint_attr-IsRefusal (str "h") se.attr none)

pub decode_nonza-Consumes :
    (se : StartElement) (fault : Fault) (ts : List Token) → Consumes ts (decode_nonza se fault ts)
unfolding decode_nonza
decode_nonza-Consumes se fault ts =
    Consumes-if ts (se.name.local == str "enabled") _ _
      (decode_packet-Consumes sm_enabled (make_enabled se) (make_enabled-IsRefusal se) fault ts)
      (Consumes-if ts (se.name.local == str "resumed") _ _
        (decode_packet-Consumes sm_resumed (make_resumed se) (make_resumed-IsRefusal se) fault ts)
        (Consumes-if ts (se.name.local == str "resume") _ _
          (decode_packet-Consumes sm_resume (make_resumed se) (make_resumed-IsRefusal se) fault ts)
          (Consumes-if ts (se.name.local == str "r") _ _
            (decode_packet-Consumes (λ u. sm_request) make_request (λ own e q. ok-IsRefusal tt e q)
              fault ts)
            (Consumes-if ts (se.name.local == str "a") _ _
              (decode_packet-Consumes sm_answer (make_answer se) (make_answer-IsRefusal se) fault
                ts)
              (Consumes-if ts (se.name.local == str "failed") _ _
                (with_value-Consumes sm_failed ts _ (decode_failed-Consumes se fault ts))
                (refused-Consumes _ ts _))))))
