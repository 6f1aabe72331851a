-- ===== src/Auth/Downgrade/Order.antt =====
-- The downgrade text does not depend on the order in which the server lists its names.
use mathlib.Core.List.{Permᴰ}
use mathlib.Core.Path.{ap₂, subst}
use go_xmpp.Text.{GoString}
use go_xmpp.Result.{ok}
use go_xmpp.Auth.Downgrade.{
  checked, insert_sorted, is_valid_binding, is_valid_mechanism, scram_downgrade_string,
  sort_strings, text_le,
}
use go_xmpp.Prelude.{
  All, Bool, List, String, [], arith, inl, inr, refl, some, true, ◌∙◌, ◌∷◌, ◌≡◌, ◌⊎◌,
}

text_le_total : (s t : GoString) → (text_le s t ≡ true) ⊎ (text_le t s ≡ true)
unfolding text_le
text_le_total [] t = inl refl
text_le_total (c ∷ s) [] = inr refl
text_le_total (c ∷ s) (d ∷ t) = ground (arith, text_le_total s t)

text_le_antisym : (s t : GoString) → text_le s t ≡ true → text_le t s ≡ true → s ≡ t
unfolding text_le
text_le_antisym [] [] h k = refl
text_le_antisym [] (d ∷ t) h k = cc
text_le_antisym (c ∷ s) [] h k = cc
text_le_antisym (c ∷ s) (d ∷ t) h k = ground (arith, text_le_antisym s t)

text_le_trans : (s t u : GoString) → text_le s t ≡ true → text_le t u ≡ true → text_le s u ≡ true
unfolding text_le
text_le_trans [] t u h k = refl
text_le_trans (c ∷ s) [] u h k = cc
text_le_trans (c ∷ s) (d ∷ t) [] h k = cc
text_le_trans (c ∷ s) (d ∷ t) (e ∷ u) h k = ground (arith, text_le_trans s t u)

insert_sorted_comm :
    (x y : GoString) (l : List GoString)
    → insert_sorted x (insert_sorted y l) ≡ insert_sorted y (insert_sorted x l)
unfolding insert_sorted
insert_sorted_comm x y [] = ground (arith, text_le_total x y, text_le_antisym x y)
insert_sorted_comm x y (z ∷ l) = ground (
  arith,
  text_le_total x y,
  text_le_antisym x y,
  text_le_total x z,
  text_le_total y z,
  text_le_trans x y z,
  text_le_trans y x z,
  text_le_trans x z y,
  text_le_trans y z x,
  insert_sorted_comm x y l,
)

sort-perm : {l k : List GoString} → Permᴰ l k → sort_strings l ≡ sort_strings k
unfolding sort_strings
sort-perm Permᴰ.nil = refl
sort-perm (Permᴰ.cons e d) = ap₂ insert_sorted e (sort-perm d)
sort-perm (Permᴰ.swap {a} {b} {a'} {b'} {l} e f) =
    insert_sorted_comm a b (sort_strings l)
    ∙ ap₂ (λ x y. insert_sorted x (insert_sorted y (sort_strings l))) f e
sort-perm (Permᴰ.trans d e) = sort-perm d ∙ sort-perm e

checked-All :
    (valid : GoString → Bool) (m : String) (l : List GoString)
    → All (λ x. valid x ≡ true) l
    → checked valid m l ≡ ok l
unfolding checked
checked-All valid m [] h = refl
checked-All valid m (x ∷ l) h = ground (arith, checked-All valid m l h.1, h.0)

All-perm : (P : GoString → Type 0) {l k : List GoString} → Permᴰ l k → All P l → All P k
All-perm P Permᴰ.nil h = tt
All-perm P (Permᴰ.cons e d) h = (subst P e h.0, All-perm P d h.1)
All-perm P (Permᴰ.swap e f) h = (subst P f h.1.0, (subst P e h.0, h.1.1))
All-perm P (Permᴰ.trans d e) h = All-perm P e (All-perm P d h)

-- Two servers that offer the same mechanisms and the same channel bindings, in any order, give the
-- same downgrade text, if the names are valid.
pub downgrade_perm :
    (ms ms' bs bs' : List GoString)
    → Permᴰ ms ms'
    → Permᴰ bs bs'
    → All (λ x. is_valid_mechanism x ≡ true) ms
    → All (λ x. is_valid_binding x ≡ true) bs
    → scram_downgrade_string ms (some bs) ≡ scram_downgrade_string ms' (some bs')
unfolding scram_downgrade_string
downgrade_perm ms ms' bs bs' p q hm hb = rw (
  checked-All is_valid_mechanism "scram: invalid SASL mechanism name " ms hm,
  checked-All is_valid_binding "scram: invalid channel binding name " bs hb,
  checked-All is_valid_mechanism "scram: invalid SASL mechanism name " ms'
      (All-perm (λ x. is_valid_mechanism x ≡ true) p hm),
  checked-All is_valid_binding "scram: invalid channel binding name " bs'
      (All-perm (λ x. is_valid_binding x ≡ true) q hb),
  sort-perm p,
  sort-perm q,
)
