-- ===== src/Text/Decimal.antt =====
-- strconv.Itoa and strconv.Atoi on the numbers that are not negative, and the loop of Atoi.
pub mod RoundTrip
use go_xmpp.Text.{GoString}
use go_xmpp.Prelude.{
  Bool, Option, [], if◌then◌else◌, leb, ltb, nat_beq, none, some, suc, zero, ℕ, ◌%◌, ◌&&◌, ◌*◌, ◌+◌,
  ◌-◌, ◌/◌, ◌^◌, ◌∷◌,
}

-- The digits of `n` before the text `out`, with fuel: a number needs fewer digits than its value + 1.
unfoldable pub digits : ℕ → ℕ → GoString → GoString
digits zero n out = out
digits (suc f) n out =
    let next = (b'0' + n % 10) ∷ out in
    let rest = digits f (n / 10) next in if ltb n 10 then next else rest

-- strconv.Itoa(n)
unfoldable pub itoa : ℕ → GoString
unfolding digits
itoa n = digits (suc n) n []

abbrev pub is_digit : ℕ → Bool
is_digit c = leb b'0' c && leb c b'9'

unfoldable pub read_digits : GoString → ℕ → Option ℕ
read_digits [] n = some n
read_digits (c ∷ s) n = if is_digit c then read_digits s (n * 10 + (c - b'0')) else none

abbrev pub max_int : ℕ
max_int = 2 ^ 63 - 1

in_range : ℕ → Option ℕ
in_range n = if leb n max_int then some n else none

unsigned : GoString → Option ℕ
unfolding read_digits in_range
unsigned [] = none
unsigned (c ∷ s) = elim (read_digits (c ∷ s) 0) [ none ↦ none | some n ↦ in_range n ]

-- The result of Atoi: `minus n` is the number -n.
pub data Parsed : Type 0 where
  syntax : Parsed
  plus minus : ℕ → Parsed

abbrev signed : (ℕ → Parsed) → Option ℕ → Parsed
signed f none = syntax
signed f (some n) = f n

unsigned_neg : GoString → Option ℕ
unfolding read_digits
unsigned_neg [] = none
unsigned_neg (c ∷ s) = elim (read_digits (c ∷ s) 0) [
  | none ↦ none
  | some n ↦ if leb n (2 ^ 63) then some n else none
]

-- strconv.Atoi(s) on a 64-bit platform: an optional sign, digits, and a value in range.
unfoldable pub atoi : GoString → Parsed
unfolding unsigned unsigned_neg
atoi [] = syntax
atoi (c ∷ s) =
    if nat_beq c b'+'
    then signed plus (unsigned s)
    else if nat_beq c b'-'
    then signed minus (unsigned_neg s)
    else signed plus (unsigned (c ∷ s))

-- fmt.Sprintf("%x", n)
unfoldable pub hex_digit : ℕ → ℕ
hex_digit d = if ltb d 10 then b'0' + d else b'a' + (d - 10)

hex_digits : ℕ → ℕ → GoString → GoString
unfolding hex_digit
hex_digits zero n out = out
hex_digits (suc f) n out =
    let next = hex_digit (n % 16) ∷ out in
    let rest = hex_digits f (n / 16) next in if ltb n 16 then next else rest

unfoldable pub hex : ℕ → GoString
unfolding hex_digits
hex n = hex_digits (suc n) n []
