-- ===== src/Text/Split.antt =====
-- strings.SplitN(s, sep, 2), strings.Split and strings.Join for a separator of one character.
use go_xmpp.Text.{GoString, Lacks}
use go_xmpp.Prelude.{
  All, List, Option, [], ap, arith, if◌then◌else◌, nat_beq, none, refl, some, ℕ, ◌++◌, ◌∷◌, ◌≡◌,
  ◌≢◌,
}

-- strings.SplitN(s, b, 2): what stands before the first `b`, and what stands behind it, if any.
unfoldable pub split_2 : ℕ → GoString → GoString × Option GoString
split_2 b [] = ([], none)
split_2 b (c ∷ s) = let (p, r) = split_2 b s in if nat_beq c b then ([], some s) else (c ∷ p, r)

-- Before the cut there is no separator, and the parts spell the text.
abbrev pub IsCut : ℕ → GoString → GoString × Option GoString → Type 0
IsCut b s (p, none) = (s ≡ p) × Lacks b p
IsCut b s (p, some r) = (s ≡ p ++ b ∷ r) × Lacks b p

pub split_2-IsCut : (b : ℕ) (s : GoString) → IsCut b s (split_2 b s)
unfolding split_2
split_2-IsCut b [] = (refl, tt)
split_2-IsCut b (c ∷ s) = ground (arith, split_2-IsCut b s)

pub split_2-Lacks : (b : ℕ) (s : GoString) → Lacks b s → split_2 b s ≡ (s, none)
unfolding split_2
split_2-Lacks b [] h = refl
split_2-Lacks b (c ∷ s) h = ground (arith, split_2-Lacks b s h.1)

pub split_2-append : (b : ℕ) (p r : GoString) → Lacks b p → split_2 b (p ++ b ∷ r) ≡ (p, some r)
unfolding split_2
split_2-append b [] r h = ground arith
split_2-append b (c ∷ p) r h = ground (arith, split_2-append b p r h.1)

-- strings.Split(s, b): at least one part.
add_front : ℕ → List GoString → List GoString
add_front c [] = (c ∷ []) ∷ []
add_front c (p ∷ ps) = (c ∷ p) ∷ ps

unfoldable pub split : ℕ → GoString → List GoString
unfolding add_front
split b [] = [] ∷ []
split b (c ∷ s) = let ps = split b s in if nat_beq c b then [] ∷ ps else add_front c ps

-- strings.Join(parts, b)
unfoldable pub join : ℕ → List GoString → GoString
join b [] = []
join b (p ∷ []) = p
join b (p ∷ q ∷ ps) = p ++ b ∷ join b (q ∷ ps)

split-ne-nil : (b : ℕ) (s : GoString) → split b s ≢ []
unfolding split
split-ne-nil b [] h = cc
split-ne-nil b (c ∷ s) h = ground (arith, split-ne-nil b s)

pub split-append : (b : ℕ) (p r : GoString) → Lacks b p → split b (p ++ b ∷ r) ≡ p ∷ split b r
unfolding split
split-append b [] r h = ground arith
split-append b (c ∷ p) r h = ground (arith, split-append b p r h.1)

pub split-Lacks : (b : ℕ) (p : GoString) → Lacks b p → split b p ≡ p ∷ []
unfolding split
split-Lacks b [] h = refl
split-Lacks b (c ∷ p) h = ground (arith, split-Lacks b p h.1)

-- Splitting a join gives the parts back.
pub split-join :
    (b : ℕ) (ps : List GoString) → ps ≢ [] → All (Lacks b) ps → split b (join b ps) ≡ ps
unfolding join
split-join b [] h k = absurd (h refl)
split-join b (p ∷ []) h k = split-Lacks b p k.0
split-join b (p ∷ q ∷ ps) h k =
    rw (split-append b p _ k.0) (ap (λ l. p ∷ l) (split-join b (q ∷ ps) (λ e. cc) k.1))
