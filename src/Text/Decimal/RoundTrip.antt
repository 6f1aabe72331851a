-- ===== src/Text/Decimal/RoundTrip.antt =====
-- strconv: what Itoa writes, Atoi reads.
use go_xmpp.Text.{GoString}
use go_xmpp.Text.Decimal.{
  atoi, digits, in_range, is_digit, itoa, max_int, minus, plus, read_digits, unsigned, unsigned_neg,
}
use go_xmpp.Prelude.{
  Bool, Bool-cases, [], arith, false, if◌then◌else◌, inl, inr, ltb, some, suc, true, zero, ℕ, ◌%◌,
  ◌*◌, ◌+◌, ◌/◌, ◌<◌, ◌^◌, ◌∷◌, ◌≡◌, ◌≤◌,
}

digit_read :
    (n : ℕ) (out : GoString) (m : ℕ)
    → read_digits ((b'0' + n % 10) ∷ out) m ≡ read_digits out (m * 10 + n % 10)
unfolding read_digits
digit_read n out m = ground arith

read_digits-digits :
    (f n : ℕ) (out : GoString) → n < f → read_digits (digits f n out) 0 ≡ read_digits out n
unfolding digits
read_digits-digits zero n out h = absurd (omega arith)
read_digits-digits (suc f) n out h = elim (Bool-cases (ltb n 10)) [
  | inl q ↦ ground (arith, q, digit_read n out 0)
  | inr q ↦
      ground
        (arith, q, digit_read n out (n / 10), read_digits-digits f (n / 10) ((b'0' + n % 10) ∷ out))
]

abbrev StartsWithDigit : GoString → Type 0
StartsWithDigit [] = ⊥
StartsWithDigit (c ∷ s) = is_digit c ≡ true

StartsWithDigit-if :
    (b : Bool) (s t : GoString)
    → StartsWithDigit s
    → StartsWithDigit t
    → StartsWithDigit (if b then s else t)
StartsWithDigit-if true s t h k = h
StartsWithDigit-if false s t h k = k

digits-StartsWithDigit :
    (f n : ℕ) (out : GoString) → StartsWithDigit out → StartsWithDigit (digits f n out)
unfolding digits
digits-StartsWithDigit zero n out h = h
digits-StartsWithDigit (suc f) n out h =
    StartsWithDigit-if (ltb n 10) _ _ (digit n)
      (digits-StartsWithDigit f (n / 10) ((b'0' + n % 10) ∷ out) (digit n))
  where
    digit : (n : ℕ) → is_digit (b'0' + n % 10) ≡ true
    digit n = ground arith

itoa-StartsWithDigit : (n : ℕ) → StartsWithDigit (itoa n)
unfolding itoa digits
itoa-StartsWithDigit n =
    StartsWithDigit-if (ltb n 10) _ _ (ground arith)
      (digits-StartsWithDigit n (n / 10) ((b'0' + n % 10) ∷ []) (ground arith))

read_digits-itoa : (n : ℕ) → read_digits (itoa n) 0 ≡ some n
unfolding itoa read_digits
read_digits-itoa n = read_digits-digits (suc n) n [] (omega arith)

atoi-digits :
    (n : ℕ) (s : GoString)
    → StartsWithDigit s
    → read_digits s 0 ≡ some n
    → n ≤ max_int
    → atoi s ≡ plus n
unfolding atoi unsigned in_range
atoi-digits n [] h q k = absurd h
atoi-digits n (c ∷ s) h q k = ground (arith, h, q)

atoi-minus :
    (n : ℕ) (s : GoString)
    → StartsWithDigit s
    → read_digits s 0 ≡ some n
    → n ≤ 2 ^ 63
    → atoi (b'-' ∷ s) ≡ minus n
unfolding atoi unsigned_neg
atoi-minus n [] h q k = absurd h
atoi-minus n (c ∷ s) h q k = ground (arith, h, q)

-- Atoi reads what Itoa wrote of a number that an int holds.
pub atoi-itoa : (n : ℕ) → n ≤ max_int → atoi (itoa n) ≡ plus n
atoi-itoa n h = atoi-digits n (itoa n) (itoa-StartsWithDigit n) (read_digits-itoa n) h

pub atoi-itoa_minus : (n : ℕ) → n ≤ 2 ^ 63 → atoi (b'-' ∷ itoa n) ≡ minus n
atoi-itoa_minus n h = atoi-minus n (itoa n) (itoa-StartsWithDigit n) (read_digits-itoa n) h
