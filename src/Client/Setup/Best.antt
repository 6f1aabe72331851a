-- ===== src/Client/Setup/Best.antt =====
-- Which of the entries of the DNS NewClient takes.
use mathlib.Core.Path.{subst}
use go_xmpp.Text.{GoString}
use go_xmpp.Network.{ensure_port}
use go_xmpp.Client.Setup.{Srv, choose, consider, find_address}
use go_xmpp.Prelude.{
  All, Bool-cases, List, [], ap, arith, inl, inr, leb, refl, some, sym, ◌&&◌, ◌++◌, ◌<◌, ◌∙◌, ◌∷◌,
  ◌≡◌, ◌≤◌, ◌⊎◌,
}

-- RFC 2782: a smaller priority goes first; of equal priorities, a greater weight.
abbrev pub IsAtLeast : Srv → Srv → Type 0
IsAtLeast s x = (s.priority < x.priority) ⊎ ((s.priority ≡ x.priority) × (x.weight ≤ s.weight))

-- In the order of priority, as net.LookupSRV sorts them.
abbrev pub IsSorted : List Srv → Type 0
IsSorted [] = Unit
IsSorted (x ∷ l) = All (λ y. x.priority ≤ y.priority) l × IsSorted l

IsAtLeast-trans : (s x y : Srv) → IsAtLeast s x → IsAtLeast x y → IsAtLeast s y
IsAtLeast-trans s x y h k = ground (arith, h, k)

abbrev pub IsOneOf : Srv → List Srv → Type 0
IsOneOf s l = (before : List Srv) × (after : List Srv) × (l ≡ before ++ s ∷ after)

-- What the loop comes to: the best of the entries `l`, and its address.
abbrev IsBest : List Srv → Srv × GoString → Type 0
IsBest l found =
    All (IsAtLeast found.0) l
    × IsOneOf found.0 l
    × (found.1 ≡ ensure_port found.0.target found.0.port)

-- A turn keeps the best entry or takes the one considered, which is then at least as good.
consider-cases :
    (srv best : Srv) (address : GoString)
    → best.priority ≤ srv.priority
    → ((consider srv (best, address) ≡ (srv, ensure_port srv.target srv.port)) × IsAtLeast srv best)
      ⊎ ((consider srv (best, address) ≡ (best, address)) × IsAtLeast best srv)
unfolding consider
consider-cases srv best address h =
    elim (Bool-cases (leb srv.priority best.priority && leb best.weight srv.weight)) [
      | inl q ↦ inl (ground (arith, q), inr (ground (arith, h, q), ground (arith, h, q)))
      | inr q ↦ inr (ground (arith, q), ground (arith, h, q))
    ]

skip-IsOneOf : (s x : Srv) (l : List Srv) → IsOneOf s l → IsOneOf s (x ∷ l)
skip-IsOneOf s x l (before, after, e) = (x ∷ before, after, ap (λ k. x ∷ k) e)

-- The best of `best ∷ entries`, where one more entry that is no better is put in front.
worse-IsBest :
    (x best : Srv) (entries : List Srv) (found : Srv × GoString)
    → IsAtLeast best x
    → IsBest (best ∷ entries) found
    → IsBest (best ∷ x ∷ entries) found
worse-IsBest x best entries found k ((atop, rest), ([], after, e), address) = (
  (atop, (IsAtLeast-trans found.0 best x atop k, rest)),
  ([], x ∷ entries, ground (arith, e)),
  address,
)
worse-IsBest x best entries found k ((atop, rest), (b ∷ before, after, e), address) = (
  (atop, (IsAtLeast-trans found.0 best x atop k, rest)),
  (b ∷ x ∷ before, after, ground (arith, e)),
  address,
)

choose-IsBest :
    (entries : List Srv) (best : Srv)
    → All (λ y. best.priority ≤ y.priority) entries
    → IsSorted entries
    → IsBest (best ∷ entries) (choose entries (best, ensure_port best.target best.port))
unfolding choose
choose-IsBest [] best h s = ((inr (refl, omega arith), tt), ([], [], refl), refl)
choose-IsBest (srv ∷ entries) best (h, hs) (s, ss) =
    elim (consider-cases srv best (ensure_port best.target best.port) h) [
      | inl (e, k) ↦
          let (all, one, address) = choose-IsBest entries srv s ss in
          subst (λ f. IsBest (best ∷ srv ∷ entries) (choose entries f)) (sym e)
            (
              (
                IsAtLeast-trans (choose entries (srv, ensure_port srv.target srv.port)).0 srv best
                    all.0 k,
                all,
              ),
              skip-IsOneOf (choose entries (srv, ensure_port srv.target srv.port)).0 best
                  (srv ∷ entries) one,
              address,
            )
      | inr (e, k) ↦
          subst (λ f. IsBest (best ∷ srv ∷ entries) (choose entries f)) (sym e)
            (worse-IsBest srv best entries
              (choose entries (best, ensure_port best.target best.port)) k
              (choose-IsBest entries best hs ss))
    ]

consider_self :
    (first : Srv) (address : GoString)
    → consider first (first, address) ≡ (first, ensure_port first.target first.port)
unfolding consider
consider_self first address = ground arith

-- If the look-up gives entries, sorted by priority, the address that NewClient takes for an empty
-- one is the host and the port of one of them, and none of the others has a smaller priority, or the
-- same priority and a greater weight.
pub find_address_best :
    (first : Srv) (entries : List Srv) (domain : GoString)
    → IsSorted (first ∷ entries)
    → (s : Srv) × IsOneOf s (first ∷ entries)
      × All (IsAtLeast s) (first ∷ entries)
      × (find_address (some (first ∷ entries)) domain ≡ ensure_port s.target s.port)
unfolding find_address
find_address_best first entries domain (h, s) =
    let (all, one, address) = choose-IsBest entries first h s in
    (
      (choose entries (first, ensure_port first.target first.port)).0,
      one,
      all,
      ap (λ f. (choose entries f).1) (consider_self first domain) ∙ address,
    )
