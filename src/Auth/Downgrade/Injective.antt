-- ===== src/Auth/Downgrade/Injective.antt =====
-- The downgrade text shows what a server offers: a change of the offer changes the text.
use mathlib.Core.List.Permᴰ
use go_xmpp.Text.{GoString, Lacks}
use go_xmpp.Text.Split.{join, split, split-join, split_2, split_2-Lacks, split_2-append}
use go_xmpp.Result.{Result-cases, ok}
use mathlib.Core.List.{Permᴰ}
use mathlib.Core.Path.{subst}
use go_xmpp.Auth.Downgrade.{
  all_runes, binding_rune, checked, insert_sorted, is_valid_binding, is_valid_mechanism, mech_rune,
  scram_downgrade_string, sort_strings, text_le, with_bindings,
}
use go_xmpp.Prelude.{
  All, All-append, Bool, Bool-cases, List, Option, String, [], ap, arith, false, inl, inr, none,
  refl, some, sym, true, ℕ, ◌∙◌, ◌∷◌, ◌≡◌, ◌≢◌,
}

-- What may stand between the separators.
abbrev Separable : GoString → Type 0
Separable x = (x ≢ []) × Lacks 0x1e x × Lacks 0x1f x

all_runes-Lacks :
    (p : ℕ → Bool) (b : ℕ) (s : GoString) → all_runes p s ≡ true → p b ≡ false → Lacks b s
unfolding all_runes
all_runes-Lacks p b [] h k = tt
all_runes-Lacks p b (c ∷ s) h k =
    ((λ e. ground (arith, ap p e)), all_runes-Lacks p b s (ground arith) k)

mech-Separable : (x : GoString) → is_valid_mechanism x ≡ true → Separable x
unfolding is_valid_mechanism
mech-Separable [] h = cc
mech-Separable (c ∷ x) h =
    let runes : all_runes mech_rune (c ∷ x) ≡ true = ground arith in
    (
      (λ e. cc),
      all_runes-Lacks mech_rune 0x1e (c ∷ x) runes refl,
      all_runes-Lacks mech_rune 0x1f (c ∷ x) runes refl,
    )

binding-Separable : (x : GoString) → is_valid_binding x ≡ true → Separable x
unfolding is_valid_binding
binding-Separable [] h = cc
binding-Separable (c ∷ x) h = (
  (λ e. cc),
  all_runes-Lacks binding_rune 0x1e (c ∷ x) h refl,
  all_runes-Lacks binding_rune 0x1f (c ∷ x) h refl,
)

checked_sound :
    (valid : GoString → Bool) (m : String) (l k : List GoString)
    → checked valid m l ≡ ok k
    → (k ≡ l) × All (λ x. valid x ≡ true) l
unfolding checked
checked_sound valid m [] k h = (ground arith, tt)
checked_sound valid m (x ∷ l) k h = elim (Result-cases (checked valid m l)) [
  | inl (c, q) ↦
      let (same, all) = checked_sound valid m l c q in
      (ground (arith, q, same), (ground (arith, q), all))
  | inr (e, q) ↦ absurd (ground (arith, q))
]

All-map {ℓ κ} :
    {P : GoString → Type ℓ} {Q : GoString → Type κ}
    → ((x : GoString) → P x → Q x)
    → (l : List GoString) → All P l
    → All Q l
All-map f [] h = tt
All-map f (x ∷ l) h = (f x h.0, All-map f l h.1)

All-insert_sorted :
    (x : GoString) (l : List GoString)
    → Separable x
    → All Separable l
    → All Separable (insert_sorted x l)
unfolding insert_sorted
All-insert_sorted x [] h k = (h, tt)
All-insert_sorted x (y ∷ l) h k = elim (Bool-cases (text_le x y)) [
  | inl e ↦ rw e (h, (k.0, k.1))
  | inr e ↦ rw e (k.0, All-insert_sorted x l h k.1)
]

All-sort : (l : List GoString) → All Separable l → All Separable (sort_strings l)
unfolding sort_strings
All-sort [] h = tt
All-sort (x ∷ l) h = All-insert_sorted x (sort_strings l) h.0 (All-sort l h.1)

join-Lacks : (l : List GoString) → All Separable l → Lacks 0x1f (join 0x1e l)
unfolding join
join-Lacks [] h = tt
join-Lacks (x ∷ []) h = h.0.2
join-Lacks (x ∷ y ∷ l) h =
    All-append (λ c. c ≢ 0x1f) x (0x1e ∷ join 0x1e (y ∷ l)) h.0.2
      ((λ e. omega arith), join-Lacks (y ∷ l) h.1)

join-ne-nil : (x : GoString) (l : List GoString) → x ≢ [] → join 0x1e (x ∷ l) ≢ []
unfolding join
join-ne-nil x [] h e = h e
join-ne-nil [] (y ∷ l) h e = absurd (h refl)
join-ne-nil (c ∷ x) (y ∷ l) h e = cc

All-Lacks : (l : List GoString) → All Separable l → All (Lacks 0x1e) l
All-Lacks l h = All-map (λ x s. s.1) l h

join_injective :
    (l k : List GoString) → All Separable l → All Separable k → join 0x1e l ≡ join 0x1e k → l ≡ k
join_injective [] [] h g e = refl
join_injective [] (y ∷ k) h g e = absurd (join-ne-nil y k g.0.0 (sym e ∙ unfold join in refl))
join_injective (x ∷ l) [] h g e = absurd (join-ne-nil x l h.0.0 (e ∙ unfold join in refl))
join_injective (x ∷ l) (y ∷ k) h g e =
    sym (split-join 0x1e (x ∷ l) (λ q. cc) (All-Lacks (x ∷ l) h))
    ∙ ap (split 0x1e) e
    ∙ split-join 0x1e (y ∷ k) (λ q. cc) (All-Lacks (y ∷ k) g)

-- The names of a list stand between the separators when they are sorted.
All-sorted_mechs :
    (m : String) (ms k : List GoString)
    → checked is_valid_mechanism m ms ≡ ok k
    → (k ≡ ms) × All Separable (sort_strings ms)
All-sorted_mechs m ms k q =
    let (same, all) = checked_sound is_valid_mechanism m ms k q in
    (same, All-sort ms (All-map mech-Separable ms all))

All-sorted_bindings :
    (m : String) (bs k : List GoString)
    → checked is_valid_binding m bs ≡ ok k
    → (k ≡ bs) × All Separable (sort_strings bs)
All-sorted_bindings m bs k q =
    let (same, all) = checked_sound is_valid_binding m bs k q in
    (same, All-sort bs (All-map binding-Separable bs all))

-- The part of the text behind the separator, and what it is made of.
abbrev bindings_text : Option (List GoString) → Option GoString
bindings_text none = none
bindings_text (some bs) = some (join 0x1e (sort_strings bs))

abbrev SeparableBindings : Option (List GoString) → Type 0
SeparableBindings none = Unit
SeparableBindings (some bs) = All Separable (sort_strings bs)

with_bindings_text :
    (ms : List GoString) (o : Option (List GoString)) (t : GoString)
    → All Separable (sort_strings ms)
    → with_bindings (join 0x1e (sort_strings ms)) o ≡ ok t
    → (split_2 0x1f t ≡ (join 0x1e (sort_strings ms), bindings_text o)) × SeparableBindings o
unfolding with_bindings
with_bindings_text ms none t h e = (
  subst (λ x. split_2 0x1f x ≡ (join 0x1e (sort_strings ms), none)) (ground (arith, e))
      (split_2-Lacks 0x1f (join 0x1e (sort_strings ms)) (join-Lacks (sort_strings ms) h)),
  tt,
)
with_bindings_text ms (some bs) t h e =
    elim (Result-cases (checked is_valid_binding "scram: invalid channel binding name " bs)) [
      | inr (er, r) ↦ absurd (ground (arith, r, e))
      | inl (k, r) ↦
          let (same, all) = All-sorted_bindings "scram: invalid channel binding name " bs k r in
          (
            subst
                (λ x.
                  split_2 0x1f x
                  ≡ (join 0x1e (sort_strings ms), some (join 0x1e (sort_strings bs))))
                (ground (arith, r, e, same))
                (split_2-append 0x1f (join 0x1e (sort_strings ms)) (join 0x1e (sort_strings bs))
                  (join-Lacks (sort_strings ms) h)),
            all,
          )
    ]

downgrade_text :
    (ms : List GoString) (o : Option (List GoString)) (t : GoString)
    → scram_downgrade_string ms o ≡ ok t
    → (split_2 0x1f t ≡ (join 0x1e (sort_strings ms), bindings_text o))
      × All Separable (sort_strings ms)
      × SeparableBindings o
unfolding scram_downgrade_string
downgrade_text ms o t h =
    elim (Result-cases (checked is_valid_mechanism "scram: invalid SASL mechanism name " ms)) [
      | inr (e, q) ↦ absurd (ground (arith, q))
      | inl (k, q) ↦
          let (same, all) = All-sorted_mechs "scram: invalid SASL mechanism name " ms k q in
          let (text, rest) = with_bindings_text ms o t all (ground (arith, q, same, h)) in
          (text, all, rest)
    ]

insert_sorted-Perm : (x : GoString) (l : List GoString) → Permᴰ (x ∷ l) (insert_sorted x l)
unfolding insert_sorted
insert_sorted-Perm x [] = Permᴰ.refl (x ∷ [])
insert_sorted-Perm x (y ∷ l) = elim (Bool-cases (text_le x y)) [
  | inl e ↦ rw e (Permᴰ.refl (x ∷ y ∷ l))
  | inr e ↦ rw e (Permᴰ.trans (Permᴰ.swap refl refl) (Permᴰ.cons refl (insert_sorted-Perm x l)))
]

sort-Perm : (l : List GoString) → Permᴰ l (sort_strings l)
unfolding sort_strings
sort-Perm [] = Permᴰ.nil
sort-Perm (x ∷ l) =
    Permᴰ.trans (Permᴰ.cons refl (sort-Perm l)) (insert_sorted-Perm x (sort_strings l))

same_joined :
    (l k : List GoString)
    → All Separable (sort_strings l)
    → All Separable (sort_strings k)
    → join 0x1e (sort_strings l) ≡ join 0x1e (sort_strings k)
    → Permᴰ l k
same_joined l k h g e = Permᴰ.trans (sort-Perm l) (
    subst (λ x. Permᴰ x k) (sym (join_injective (sort_strings l) (sort_strings k) h g e))
      (Permᴰ.symm (sort-Perm k)))

-- The same channel bindings up to their order, or none in both.
abbrev pub SameBindings : Option (List GoString) → Option (List GoString) → Type 0
SameBindings none none = Unit
SameBindings (some bs) (some bs') = Permᴰ bs bs'
SameBindings _ _ = ⊥

same_bindings :
    (o o' : Option (List GoString))
    → SeparableBindings o
    → SeparableBindings o'
    → bindings_text o ≡ bindings_text o'
    → SameBindings o o'
same_bindings none none h g e = tt
same_bindings none (some bs') h g e = absurd cc
same_bindings (some bs) none h g e = absurd cc
same_bindings (some bs) (some bs') h g e = same_joined bs bs' h g (ground (arith, e))

-- If two offers have the same downgrade text, then their mechanisms are the same up to their order, each
-- as often, and so are their channel bindings, or neither offer has a list of channel bindings: no
-- name, and no list of channel bindings, can be removed or added unnoticed.
pub downgrade_injective :
    (ms ms' : List GoString) (bs bs' : Option (List GoString)) (t : GoString)
    → scram_downgrade_string ms bs ≡ ok t
    → scram_downgrade_string ms' bs' ≡ ok t
    → Permᴰ ms ms' × SameBindings bs bs'
downgrade_injective ms ms' bs bs' t h k =
    let (e, hm, hb) = downgrade_text ms bs t h in
    let (e', hm', hb') = downgrade_text ms' bs' t k in
    let same = sym e ∙ e' in
    (
      same_joined ms ms' hm hm' (ap (λ x. x.0) same),
      same_bindings bs bs' hb hb' (ap (λ x. x.1) same),
    )
