-- ===== src/Auth/Downgrade.antt =====
-- auth.go: the text that SCRAM's downgrade protection hashes.
pub mod Order
pub mod Injective
use go_xmpp.Text.{GoString, str}
use go_xmpp.Text.Split.{join}
use go_xmpp.Result.{Result, err, ok, text_error, ◌>>=◌, ◌>>◌}
use go_xmpp.Prelude.{
  Bool, List, Option, String, [], false, if◌then◌else◌, leb, length, ltb, nat_beq, none, some, true,
  ℕ, ◌&&◌, ◌++◌, ◌||◌, ◌∷◌,
}

abbrev between : ℕ → ℕ → ℕ → Bool
between lo hi r = leb lo r && leb r hi

mech_rune : ℕ → Bool
mech_rune r = between b'A' b'Z' r || between b'0' b'9' r || nat_beq r b'-' || nat_beq r b'_'

binding_rune : ℕ → Bool
binding_rune r =
    between b'A' b'Z' r
    || between b'a' b'z' r
    || between b'0' b'9' r
    || nat_beq r b'.'
    || nat_beq r b'-'

all_runes : (ℕ → Bool) → GoString → Bool
all_runes p [] = true
all_runes p (c ∷ s) = p c && all_runes p s

-- isValidSASLMechanismName. Where a name is accepted its characters are bytes, so that its length
-- in characters is the length that Go tests.
unfoldable pub is_valid_mechanism : GoString → Bool
unfolding all_runes mech_rune
is_valid_mechanism [] = false
is_valid_mechanism (c ∷ name) =
    if ltb 20 (length (c ∷ name)) || between b'0' b'9' c
    then false
    else all_runes mech_rune (c ∷ name)

-- isValidChannelBindingName
unfoldable pub is_valid_binding : GoString → Bool
unfolding all_runes binding_rune
is_valid_binding [] = false
is_valid_binding (c ∷ name) = all_runes binding_rune (c ∷ name)

-- The order of sort.Strings, and the sorted list.
unfoldable pub text_le : GoString → GoString → Bool
text_le [] t = true
text_le (c ∷ s) [] = false
text_le (c ∷ s) (d ∷ t) = if ltb c d then true else nat_beq c d && text_le s t

unfoldable pub insert_sorted : GoString → List GoString → List GoString
insert_sorted x [] = x ∷ []
insert_sorted x (y ∷ l) =
    let rest = y ∷ insert_sorted x l in if text_le x y then x ∷ y ∷ l else rest

unfoldable pub sort_strings : List GoString → List GoString
unfolding insert_sorted
sort_strings [] = []
sort_strings (x ∷ l) = insert_sorted x (sort_strings l)

-- The loops that copy the names and refuse the first that is not valid.
checked : (GoString → Bool) → String → List GoString → Result (List GoString)
checked valid message [] = ok []
checked valid message (x ∷ l) =
    if valid x
    then elim (checked valid message l) [ ok copied ↦ ok (x ∷ copied) | err e ↦ err e ]
    else err (text_error (str message ++ x))

with_bindings : GoString → Option (List GoString) → Result GoString
unfolding checked
with_bindings m none = ok m
with_bindings m (some names) = do
  copied ← checked is_valid_binding "scram: invalid channel binding name " names
  ok (m ++ 0x1f ∷ join 0x1e (sort_strings copied))

-- scramDowngradeString; no channel bindings, a nil slice, are `none`.
unfoldable pub scram_downgrade_string : List GoString → Option (List GoString) → Result GoString
unfolding with_bindings
scram_downgrade_string mechanisms bindings = do
  filtered ← checked is_valid_mechanism "scram: invalid SASL mechanism name " mechanisms
  with_bindings (join 0x1e (sort_strings filtered)) bindings
