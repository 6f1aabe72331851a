-- ===== src/Router/Dispatch/Laws.antt =====
-- What Router.route does with a packet, on every branch.
use go_xmpp.Text.{GoString, str, text_eq_instance}
use go_xmpp.Stanza.Packet.{Iq, Packet, iq, sm_answer}
use go_xmpp.Stanza.Iq.{make_error}
use go_xmpp.Router.{Route, Router, match_routes, remove_iq_result_route}
use go_xmpp.Router.Dispatch.{
  Effect, Sender, closed, delivered, handled, iq_not_implemented, panicked, route, run_handler,
}
use go_xmpp.Router.Matching.{IsFirst, match_routes-IsFirst}
use go_xmpp.Prelude.{
  List, Option, [], arith, if◌then◌else◌, lookup, lookup-remove, nat_eq, none, pos, some, ℕ, ◌==◌,
  ◌||◌, ◌∷◌, ◌≡◌,
}

-- The reply that a packet without a route is owed: the error feature-not-implemented, for an IQ
-- that asks something.
abbrev pub not_implemented : Packet → Option Packet
not_implemented (iq q) =
    if q.attrs.kind == str "get" || q.attrs.kind == str "set"
    then some (
        iq (
          make_error
            (record {
              code = pos 501;
              kind = str "cancel";
              reason = str "feature-not-implemented";
              text = [];
            })
            q))
    else none
not_implemented _ = none

abbrev pub send_reply : {S : Type 0} → Sender S → Option Packet → S → S
send_reply sender none s = s
send_reply sender (some p) s = (sender.send p s).1

-- A packet that no temporary route waits for, and no acknowledgement.
abbrev pub IsPlain : {H : Type 0} → Router H → Packet → Type 0
IsPlain r (iq q) = lookup q.attrs.id r.iq_result_routes ≡ none
IsPlain r (sm_answer h) = ⊥
IsPlain r _ = Unit

-- What a handler does: it is called once with the packet, or it is nil.
abbrev pub effects_of : {H : Type 0} → Option H → Packet → List (Effect H)
effects_of none p = panicked ∷ []
effects_of (some h) p = handled h p ∷ []

module _ {H S : Type 0} (sender : Sender S) where
  route-matched :
      (p : Packet) (r : Router H) (s : S)
      → IsPlain r p
      → route sender p r s ≡ (elim (match_routes r.routes p) [
        | none ↦ (r, send_reply sender (not_implemented p) s, [])
        | some t ↦ (r, s, effects_of t.handler p)
      ])
  unfolding route iq_not_implemented run_handler
  route-matched (iq q) r s e = ground (arith, e)
  route-matched (sm_answer h) r s e = absurd e
  route-matched _ r s e = ground arith

  -- An IQ whose id has a temporary route is delivered to its channel, which is closed, whatever the
  -- routes are and whatever the type of the IQ is; nothing is sent. The temporary route is gone: a
  -- second IQ with the id is not delivered by it, and the other temporary routes stay.
  pub route-iq_result :
      (q : Iq) (r : Router H) (s : S) (chan : ℕ)
      → lookup q.attrs.id r.iq_result_routes ≡ some chan
      → (route sender (iq q) r s
          ≡ (remove_iq_result_route q.attrs.id r, s, delivered chan q ∷ closed chan ∷ []))
        × ((id : GoString)
            → lookup id (route sender (iq q) r s).0.iq_result_routes
              ≡ (if q.attrs.id == id then none else lookup id r.iq_result_routes))
        × ((route sender (iq q) r s).0.routes ≡ r.routes)
  unfolding route remove_iq_result_route
  route-iq_result q r s chan e =
      (rw e, (λ id. rw e (lookup-remove q.attrs.id id r.iq_result_routes)), rw e)

  -- A packet that is neither awaited nor an acknowledgement: either there is a first route, in the
  -- order of the table, whose matchers all match; then its handler runs, once, on the packet, or its
  -- nil handler panics, and the router itself sends nothing. Or no route matches; then no handler
  -- runs, and the one thing sent is the error that an IQ of type get or set is owed. Either way the
  -- table of routes stays as it is.
  pub route_plain :
      (p : Packet) (r : Router H) (s : S)
      → IsPlain r p
      → (o : Option (Route H)) × IsFirst r.routes p o
        × (route sender p r s ≡ (elim o [
          | none ↦ (r, send_reply sender (not_implemented p) s, [])
          | some t ↦ (r, s, effects_of t.handler p)
        ]))
  route_plain p r s e =
      (match_routes r.routes p, match_routes-IsFirst r.routes p, route-matched p r s e)
