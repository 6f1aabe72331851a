-- ===== src/Text.antt =====
-- Go strings, and what the program uses of the packages strings, unicode and strconv. A string is
-- the list of its code points: every string here is taken to be valid UTF-8, so that a search for
-- an ASCII byte and a search for that code point find the same place.
pub mod Split
pub mod Decimal
use Prim.Native.Char.{code}
use go_xmpp.Prelude.{
  All, Bool, Comparable, List, String, [], arith, false, if◌then◌else◌, leb, ltb, nat_beq, nat_eq,
  refl, true, ℕ, ◌&&◌, ◌++◌, ◌+◌, ◌==◌, ◌||◌, ◌↔◌, ◌∷◌, ◌≡◌, ◌≢◌,
}

abbrev pub GoString : Type 0
GoString = List ℕ

abbrev pub codes : String → GoString
codes String.[] = []
codes (String.◌∷◌ c s) = code c ∷ codes s

-- A string literal of the source. It is shut, so that a proof handles it as one name.
unfoldable pub str : String → GoString
str s = codes s

-- s == ""
abbrev pub is_empty : GoString → Bool
is_empty [] = true
is_empty (c ∷ s) = false

-- `==` on strings.
unfoldable pub text_eq : GoString → GoString → Bool
text_eq [] t = is_empty t
text_eq (c ∷ s) [] = false
text_eq (c ∷ s) (d ∷ t) = nat_beq c d && text_eq s t

pub text_eq_iff : (s t : GoString) → (text_eq s t ≡ true) ↔ (s ≡ t)
unfolding text_eq
text_eq_iff [] [] = ground arith
text_eq_iff [] (d ∷ t) = ground arith
text_eq_iff (c ∷ s) [] = ground arith
text_eq_iff (c ∷ s) (d ∷ t) = ground (arith, text_eq_iff s t)

instance abbrev pub text_eq_instance : Comparable GoString
text_eq_instance = record { equal = text_eq; equal_iff = text_eq_iff }

-- strings.HasPrefix(s, prefix)
unfoldable pub has_prefix : GoString → GoString → Bool
has_prefix s [] = true
has_prefix [] (d ∷ p) = false
has_prefix (c ∷ s) (d ∷ p) = nat_beq c d && has_prefix s p

-- The prefix test is exact.
pub has_prefix_sound : (s p : GoString) → has_prefix s p ≡ true → (r : GoString) × (s ≡ p ++ r)
unfolding has_prefix
has_prefix_sound s [] h = (s, refl)
has_prefix_sound [] (d ∷ p) h = cc
has_prefix_sound (c ∷ s) (d ∷ p) h =
    let (r, e) = has_prefix_sound s p (ground arith) in (r, ground arith)

pub has_prefix-append : (p r : GoString) → has_prefix (p ++ r) p ≡ true
unfolding has_prefix
has_prefix-append [] r = refl
has_prefix-append (d ∷ p) r = ground (arith, has_prefix-append p r)

-- unicode.IsSpace(c)
unfoldable pub is_space : ℕ → Bool
is_space c =
    (leb 9 c && leb c 13)
    || nat_beq c 32
    || nat_beq c 0x85
    || nat_beq c 0xa0
    || nat_beq c 0x1680
    || (leb 0x2000 c && leb c 0x200a)
    || nat_beq c 0x2028
    || nat_beq c 0x2029
    || nat_beq c 0x202f
    || nat_beq c 0x205f
    || nat_beq c 0x3000

-- strings.TrimSpace(s)
abbrev pub trim_left : GoString → GoString
trim_left [] = []
trim_left (c ∷ s) = let rest = trim_left s in if is_space c then rest else c ∷ s

abbrev pub trim_right : GoString → GoString
trim_right [] = []
trim_right (c ∷ s) = elim (trim_right s) [
  | [] ↦ if is_space c then [] else c ∷ []
  | d ∷ r ↦ c ∷ d ∷ r
]

unfoldable pub trim_space : GoString → GoString
unfolding is_space
trim_space s = trim_right (trim_left s)

-- strings.TrimSpace(s) == "": nothing but space.
unfoldable pub is_blank : GoString → Bool
is_blank [] = true
is_blank (c ∷ s) = is_space c && is_blank s

-- strings.ToLower on the ASCII letters; other letters stand for themselves here.
unfoldable pub lower_rune : ℕ → ℕ
lower_rune c = if leb b'A' c && leb c b'Z' then c + 32 else c

unfoldable pub to_lower : GoString → GoString
unfolding lower_rune
to_lower [] = []
to_lower (c ∷ s) = lower_rune c ∷ to_lower s

pub lower_rune_idem : (c : ℕ) → lower_rune (lower_rune c) ≡ lower_rune c
unfolding lower_rune
lower_rune_idem c = ground arith

pub to_lower_idem : (s : GoString) → to_lower (to_lower s) ≡ to_lower s
unfolding to_lower
to_lower_idem [] = refl
to_lower_idem (c ∷ s) = ground (arith, lower_rune_idem c, to_lower_idem s)

-- strings.Count(s, "c") for a single character.
unfoldable pub count : ℕ → GoString → ℕ
count b [] = 0
count b (c ∷ s) = (if nat_beq c b then 1 else 0) + count b s

-- strings.LastIndex(s, "c") + 1 for a single character: 0 where Go returns -1.
unfoldable pub last_index_1 : ℕ → GoString → ℕ
last_index_1 b [] = 0
last_index_1 b (c ∷ s) =
    let r = last_index_1 b s in if ltb 0 r then r + 1 else if nat_beq c b then 1 else 0

-- Absence of a character.
abbrev pub Lacks : ℕ → GoString → Type 0
Lacks b = All (λ c. c ≢ b)

-- strings.IndexFunc(s, p) >= 0
unfoldable pub contains_func : (ℕ → Bool) → GoString → Bool
contains_func p [] = false
contains_func p (c ∷ s) = p c || contains_func p s

-- s == v for some v of the list.
unfoldable pub mem_text : GoString → List GoString → Bool
mem_text v [] = false
mem_text v (s ∷ l) = s == v || mem_text v l
