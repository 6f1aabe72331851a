-- ===== src/Auth/Fields/RoundTrip.antt =====
-- parseSCRAMFields against the text that a list of attributes spells.
use go_xmpp.Text.{GoString, Lacks, text_eq_iff, text_eq_instance}
use go_xmpp.Text.Split.{join, split-join, split_2, split_2-append}
use go_xmpp.Result.{ok}
use go_xmpp.Auth.Fields.{add_field, add_fields, parse_scram_fields}
use go_xmpp.Prelude.{
  All, All-append, Assoc, List, Option, [], ap, arith, insert, lookup, lookup-insert, nat_eq, none,
  refl, some, ◌++◌, ◌∙◌, ◌∷◌, ◌≡◌, ◌≢◌,
}

abbrev pub Attributes : Type 0
Attributes = Assoc GoString GoString

-- The parts `name=value`.
abbrev pub spell : Attributes → List GoString
spell [] = []
spell ((k, v) ∷ l) = (k ++ b'=' ∷ v) ∷ spell l

-- Names hold no "=" and no comma, values no comma, and no name comes twice.
abbrev pub IsSpellable : Attributes → Type 0
IsSpellable [] = Unit
IsSpellable ((k, v) ∷ l) =
    Lacks b'=' k × Lacks b',' k × Lacks b',' v × (lookup k l ≡ none) × IsSpellable l

insert_all : Attributes → Attributes → Attributes
insert_all [] fields = fields
insert_all ((k, v) ∷ l) fields = insert_all l (insert k v fields)

abbrev Absent : Attributes → Attributes → Type 0
Absent l fields = All (λ kv. lookup kv.0 fields ≡ none) l

Absent-insert :
    (k v : GoString) (l fields : Attributes)
    → lookup k l ≡ none
    → Absent l fields
    → Absent l (insert k v fields)
unfolding lookup
Absent-insert k v [] fields h a = tt
Absent-insert k v ((j, w) ∷ l) fields h a = (
  rw (lookup-insert k j v fields) (ground (arith, a.0, text_eq_iff k j, text_eq_iff j k)),
  Absent-insert k v l fields (ground arith) a.1,
)

add_field-spell :
    (k v : GoString) (fields : Attributes)
    → Lacks b'=' k
    → lookup k fields ≡ none
    → add_field (k ++ b'=' ∷ v) (split_2 b'=' (k ++ b'=' ∷ v)) fields ≡ ok (insert k v fields)
unfolding add_field
add_field-spell [] v fields h a = rw (split_2-append b'=' [] v h) (ground (arith, a))
add_field-spell (c ∷ k) v fields h a = rw (split_2-append b'=' (c ∷ k) v h) (ground (arith, a))

add_fields-spell :
    (l fields : Attributes)
    → IsSpellable l
    → Absent l fields
    → add_fields (spell l) fields ≡ ok (insert_all l fields)
unfolding add_fields insert_all
add_fields-spell [] fields s a = refl
add_fields-spell ((k, v) ∷ l) fields s a =
    rw (add_field-spell k v fields s.0 a.0, add_fields)
      (add_fields-spell l (insert k v fields) s.4 (Absent-insert k v l fields s.3 a.1))

lookup-insert_all :
    (k : GoString) (l fields : Attributes)
    → IsSpellable l
    → lookup k (insert_all l fields)
      ≡ (elim (lookup k l) [ none ↦ lookup k fields | some v ↦ some v ])
unfolding insert_all lookup
lookup-insert_all k [] fields s = refl
lookup-insert_all k ((j, v) ∷ l) fields s = ground (
  arith,
  lookup-insert_all k l (insert j v fields) s.4,
  lookup-insert j k v fields,
  text_eq_iff j k,
  s.3,
)

All-spell : (l : Attributes) → IsSpellable l → All (Lacks b',') (spell l)
All-spell [] s = tt
All-spell ((k, v) ∷ l) s =
    (All-append (λ c. c ≢ b',') k (b'=' ∷ v) s.1 ((λ e. omega arith), s.2), All-spell l s.4)

Absent-nil : (l : Attributes) → Absent l []
unfolding lookup
Absent-nil [] = tt
Absent-nil (kv ∷ l) = (refl, Absent-nil l)

abbrev no_fields : Attributes
no_fields = []

or_none :
    (k : GoString) (o : Option GoString)
    → (elim o [ none ↦ lookup k no_fields | some v ↦ some v ]) ≡ o
unfolding lookup
or_none k none = refl
or_none k (some v) = refl

-- A message of one or more attributes with distinct names, joined by commas, is parsed into a map
-- that holds each value under its name and nothing under any other name.
pub parse_scram_fields-join :
    (l : Attributes)
    → l ≢ []
    → IsSpellable l
    → (m : Attributes) × (parse_scram_fields (join b',' (spell l)) ≡ ok m)
      × ((k : GoString) → lookup k m ≡ lookup k l)
unfolding parse_scram_fields
parse_scram_fields-join [] ne s = absurd (ne refl)
parse_scram_fields-join ((k, v) ∷ l) ne s = (
  insert_all ((k, v) ∷ l) [],
  ap (λ ps. add_fields ps [])
        (split-join b',' (spell ((k, v) ∷ l)) (λ e. cc) (All-spell ((k, v) ∷ l) s))
      ∙ add_fields-spell ((k, v) ∷ l) [] s (Absent-nil ((k, v) ∷ l)),
  λ j. lookup-insert_all j ((k, v) ∷ l) [] s ∙ or_none j (lookup j ((k, v) ∷ l)),
)
