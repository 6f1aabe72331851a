-- ===== src/Stanza/Parser/Nonza.antt =====
-- The decoders of stanza/stream_management.go. encoding/xml fills the fields from the attributes by
-- their local names, and skips what the element holds.
pub mod Progress
use go_xmpp.Text.{GoString, str, text_eq_instance, trim_space}
use go_xmpp.Text.Decimal.{read_digits}
use go_xmpp.Result.{GoError, Result, err, ok, text_error, ◌>>=◌}
use go_xmpp.Stanza.Packet.{
  Attribute, Packet, SmEnabled, SmResumed, XmlName, name, sm_answer, sm_enabled, sm_failed,
  sm_request, sm_resume, sm_resumed,
}
use go_xmpp.Stanza.Xml.{
  Decode, StartElement, Token, decode_element, decode_made, last_attr, name_eq_instance,
}
use go_xmpp.Stanza.Failed.{unmarshal_failed}
use go_xmpp.Prelude.{
  List, Option, [], if◌then◌else◌, leb, nat_eq, none, some, ℕ, ◌++◌, ◌-◌, ◌==◌, ◌^◌, ◌∷◌,
}

abbrev pub unexpected : XmlName → GoError
unexpected n =
    text_error (str "unexpected XMPP packet " ++ (n.space ++ (str " <" ++ (n.local ++ str "/>"))))

abbrev pub as_packet :
    {A : Type 0} → (A → Packet) → Result (A × List Token) → Result (Packet × List Token)
as_packet make r = r >>= λ p. ok (make p.0, p.1)

unfoldable pub decode_packet : {A : Type 0} → (A → Packet) → (List Token → Result A) → Decode Packet
unfolding decode_made
decode_packet make read fault ts = as_packet make (decode_made read fault ts)

abbrev pub max_uint : ℕ
max_uint = 2 ^ 64 - 1

abbrev pub bad_number : GoError
bad_number = text_error (str "strconv.ParseUint: invalid syntax or value out of range")

unfoldable pub digits_of : GoString → Result ℕ
digits_of [] = err bad_number
digits_of (c ∷ s) = elim (read_digits (c ∷ s) 0) [
  | none ↦ err bad_number
  | some n ↦ if leb n max_uint then ok n else err bad_number
]

-- An attribute into a uint of 64 bits: nothing is 0.
unfoldable pub read_uint : GoString → Result ℕ
unfolding digits_of
read_uint [] = ok 0
read_uint (c ∷ s) = digits_of (trim_space (c ∷ s))

-- A uint field: each attribute with its name is read, and one that is refused is an error.
unfoldable pub uint_attr : GoString → List Attribute → Option ℕ → Result (Option ℕ)
unfolding read_uint
uint_attr key [] held = ok held
uint_attr key (a ∷ l) held =
    (if a.name.local == key then (read_uint a.value >>= λ n. ok (some n)) else ok held)
    >>= uint_attr key l

abbrev pub or_zero : Option ℕ → ℕ
or_zero none = 0
or_zero (some n) = n

unfoldable pub make_enabled : StartElement → List Token → Result SmEnabled
unfolding last_attr uint_attr
make_enabled se own = uint_attr (str "max") se.attr none >>= λ n. ok (record {
  id = last_attr (str "id") se.attr [];
  location = last_attr (str "location") se.attr [];
  resume = last_attr (str "resume") se.attr [];
  max = or_zero n;
})

-- SMResumed and SMResume have the same fields.
unfoldable pub make_resumed : StartElement → List Token → Result SmResumed
unfolding last_attr uint_attr
make_resumed se own = uint_attr (str "h") se.attr none >>= λ n.
    ok (record { prev_id = last_attr (str "previd") se.attr []; h = n })

unfoldable pub make_answer : StartElement → List Token → Result ℕ
unfolding uint_attr
make_answer se own = uint_attr (str "h") se.attr none >>= λ n. ok (or_zero n)

abbrev pub make_request : List Token → Result (Unit {0})
make_request own = ok tt

-- smDecoder.decode
unfoldable pub decode_nonza : StartElement → Decode Packet
unfolding decode_packet make_enabled make_resumed make_answer decode_element unmarshal_failed
decode_nonza se fault ts =
    if se.name.local == str "enabled"
    then decode_packet sm_enabled (make_enabled se) fault ts
    else if se.name.local == str "resumed"
    then decode_packet sm_resumed (make_resumed se) fault ts
    else if se.name.local == str "resume"
    then decode_packet sm_resume (make_resumed se) fault ts
    else if se.name.local == str "r"
    then decode_packet (λ u. sm_request) make_request fault ts
    else if se.name.local == str "a"
    then decode_packet sm_answer (make_answer se) fault ts
    else if se.name.local == str "failed"
    then as_packet sm_failed (decode_element unmarshal_failed se fault ts)
    else err (unexpected se.name)
