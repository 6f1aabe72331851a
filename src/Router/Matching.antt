-- ===== src/Router/Matching.antt =====
-- Which route a packet takes.
use go_xmpp.Text.{GoString, text_eq_iff, text_eq_instance, to_lower}
use go_xmpp.Stanza.Packet.{Iq, IqPayload, Packet, iq, name, namespace}
use go_xmpp.Router.{
  Matcher, Route, Router, handle, iq_namespaces, match_all, match_in_array, match_matcher,
  match_route, match_routes, name_matcher, ns_iq_matcher, packet_name,
}
use go_xmpp.Prelude.{
  All, Bool-cases, List, Option, [], ap, arith, false, if◌then◌else◌, inl, inr, nat_eq, none, refl,
  some, true, ◌++◌, ◌==◌, ◌↔◌, ◌∙◌, ◌∷◌, ◌≡◌, ◌≢◌,
}

match_all_iff :
    (ms : List Matcher) (p : Packet)
    → (match_all ms p ≡ true) ↔ All (λ m. match_matcher m p ≡ true) ms
unfolding match_all
match_all_iff [] p = ((λ _. tt), (λ _. refl))
match_all_iff (m ∷ ms) p = ground (arith, match_all_iff ms p)

match_all-snoc :
    (ms : List Matcher) (m : Matcher) (p : Packet)
    → match_matcher m p ≡ false
    → match_all (ms ++ m ∷ []) p ≡ false
unfolding match_all
match_all-snoc [] m p h = ground arith
match_all-snoc (k ∷ ms) m p h = ground (arith, match_all-snoc ms m p h)

ns_iq_upper :
    (ns : GoString) (q : Iq) (payload : IqPayload)
    → to_lower ns ≢ ns
    → q.payload ≡ some payload
    → namespace payload ≡ ns
    → match_matcher (ns_iq_matcher (to_lower ns ∷ [])) (iq q) ≡ false
unfolding match_matcher match_in_array
ns_iq_upper ns q payload up e f = ground (arith, text_eq_iff (to_lower ns) (namespace payload))

module _ {H : Type 0} where
  -- A route whose matchers all match a packet.
  abbrev pub Matches : Packet → Route H → Type 0
  Matches p r = All (λ m. match_matcher m p ≡ true) r.matchers

  -- Routes that do not match a packet.
  abbrev pub NoneMatch : Packet → List (Route H) → Type 0
  NoneMatch p = All (λ r. ¬ Matches p r)

  -- What Router.Match answers: no route matches, or the first one that does, with those before it.
  abbrev pub IsFirst : List (Route H) → Packet → Option (Route H) → Type 0
  IsFirst rs p none = NoneMatch p rs
  IsFirst rs p (some r) =
      (before : List (Route H)) × (after : List (Route H)) × (rs ≡ before ++ r ∷ after)
      × NoneMatch p before
      × Matches p r

  not_matching : (r : Route H) (p : Packet) → match_route r p ≡ false → ¬ Matches p r
  unfolding match_route
  not_matching r p e h = absurd (ground (arith, e, (match_all_iff r.matchers p).1 h))

  cons-IsFirst :
      (r : Route H) (rs : List (Route H)) (p : Packet) (o : Option (Route H))
      → ¬ Matches p r
      → IsFirst rs p o
      → IsFirst (r ∷ rs) p o
  cons-IsFirst r rs p none h f = (h, f)
  cons-IsFirst r rs p (some t) h (before, after, e, n, m) =
      (r ∷ before, after, ap (λ l. r ∷ l) e, (h, n), m)

  -- Router.Match finds the first route, in the order in which they were set, whose matchers all
  -- match, and finds none only if no route matches.
  pub match_routes-IsFirst : (rs : List (Route H)) (p : Packet) → IsFirst rs p (match_routes rs p)
  unfolding match_routes
  match_routes-IsFirst [] p = tt
  match_routes-IsFirst (r ∷ rs) p = elim (Bool-cases (match_route r p)) [
    | inl yes_it ↦
        rw yes_it ([], rs, refl, tt, (match_all_iff r.matchers p).0 (unfold match_route in yes_it))
    | inr no_it ↦ rw no_it (
        cons-IsFirst r rs p (match_routes rs p) (not_matching r p no_it)
          (match_routes-IsFirst rs p))
  ]

  match_routes-append :
      (rs ts : List (Route H)) (p : Packet)
      → match_routes (rs ++ ts) p
        ≡ (elim (match_routes rs p) [ none ↦ match_routes ts p | some r ↦ some r ])
  unfolding match_routes
  match_routes-append [] ts p = refl
  match_routes-append (r ∷ rs) ts p = ground (arith, match_routes-append rs ts p)

  -- Handle and HandleFunc add a route behind the others, which takes exactly the packets of the
  -- given name, in any case of its letters, that no earlier route takes.
  pub match-handle :
      (r : Router H) (name : GoString) (h : H) (p : Packet)
      → match_routes (handle name h r).routes p ≡ (elim (match_routes r.routes p) [
        | none ↦
            if packet_name p == to_lower name
            then some (record { handler = some h; matchers = name_matcher (to_lower name) ∷ [] })
            else none
        | some t ↦ some t
      ])
  unfolding handle match_routes match_route match_matcher
  match-handle r name h p = match_routes-append r.routes _ p ∙ ground arith

  -- IQNamespaces puts its arguments in lower case, and a payload's namespace is compared as it is:
  -- a namespace with an upper-case letter is never matched by the route that names it.
  pub iq_namespaces_upper :
      (ns : GoString) (r : Route H) (q : Iq) (payload : IqPayload)
      → to_lower ns ≢ ns
      → q.payload ≡ some payload
      → namespace payload ≡ ns
      → match_route (iq_namespaces (ns ∷ []) r) (iq q) ≡ false
  unfolding match_route iq_namespaces
  iq_namespaces_upper ns r q payload up e f =
      match_all-snoc r.matchers _ (iq q) (ns_iq_upper ns q payload up e f)
