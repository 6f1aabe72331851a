-- ===== src/Tests/Routes.antt =====
-- Routes and dispatch.
use go_xmpp.Text.{GoString, text_eq, text_eq_instance}
use go_xmpp.Stanza.Packet.{Iq, iq, other_payload}
use go_xmpp.Tests.Fixtures.{catch_all, client_ab, toy_codec}
use go_xmpp.Router.{Route, Router, remove_iq_result_route}
use go_xmpp.Router.Matching.{IsFirst}
use go_xmpp.Router.Dispatch.{Sender, closed, delivered, route}
use go_xmpp.Router.Dispatch.Laws.{
  effects_of, not_implemented, route-iq_result, route_plain, send_reply,
}
use go_xmpp.Client.{Client, client_sender}
use go_xmpp.Prelude.{Option, [], if◌then◌else◌, lookup, nat_eq, none, refl, some, ℕ, ◌==◌, ◌∷◌, ◌≡◌}

abbrev a_query : Iq
a_query = record {
  attrs = record { kind = b'g' ∷ b'e' ∷ b't' ∷ []; id = b'1' ∷ []; from = []; to = []; lang = [] };
  payload = some (other_payload (b'N' ∷ []) []);
  error = none;
  any = none;
}

abbrev awaiting : Router ℕ
awaiting = record catch_all { iq_result_routes = (b'1' ∷ [], 5) ∷ [] }

abbrev empty_route : Route ℕ
empty_route = record { handler = none; matchers = [] }

abbrev sender : Sender (Client ℕ)
sender = client_sender toy_codec

route_plain_example :
    (o : Option (Route ℕ)) × IsFirst catch_all.routes (iq a_query) o
    × (route sender (iq a_query) catch_all (client_ab []) ≡ (elim o [
      | none ↦ (catch_all, send_reply sender (not_implemented (iq a_query)) (client_ab []), [])
      | some t ↦ (catch_all, (client_ab []), effects_of t.handler (iq a_query))
    ]))
unfolding lookup
route_plain_example = route_plain sender (iq a_query) catch_all (client_ab []) refl

route-iq_result_example :
    (route sender (iq a_query) awaiting (client_ab []) ≡ (
      remove_iq_result_route a_query.attrs.id awaiting,
      (client_ab []),
      delivered 5 a_query ∷ closed 5 ∷ [],
    ))
    × ((id : GoString)
        → lookup id (route sender (iq a_query) awaiting (client_ab [])).0.iq_result_routes
          ≡ (if a_query.attrs.id == id then none else lookup id awaiting.iq_result_routes))
    × ((route sender (iq a_query) awaiting (client_ab [])).0.routes ≡ awaiting.routes)
unfolding lookup text_eq
route-iq_result_example = route-iq_result sender a_query awaiting (client_ab []) 5 refl
