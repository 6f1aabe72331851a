-- ===== src/Router.antt =====
-- router.go: routes and their matchers, and the table of temporary routes for IQ results.
-- A *Route is its place in the list of routes, and a channel of IQs is a number.
pub mod Matching
pub mod Dispatch
use go_xmpp.Text.{GoString, is_empty, str, text_eq_instance, to_lower}
use go_xmpp.Stanza.Packet.{IqPayload, Packet, iq, message, name, namespace, presence, types}
use go_xmpp.Prelude.{
  Assoc, Bool, List, Option, [], false, if◌then◌else◌, insert, nat_eq, none, remove, some, true, ℕ,
  ◌++◌, ◌==◌, ◌||◌, ◌∷◌,
}

-- Matchers. `custom_matcher` is a Matcher that the library's user implements.
pub data Matcher : Type 0 where
  name_matcher : GoString → Matcher
  ns_type_matcher : List GoString → Matcher
  ns_iq_matcher : List GoString → Matcher
  custom_matcher : (Packet → Bool) → Matcher

-- matchInArray(arr, value)
unfoldable pub match_in_array : List GoString → GoString → Bool
match_in_array [] value = false
match_in_array (s ∷ arr) value = s == value || match_in_array arr value

unfoldable pub packet_name : Packet → GoString
packet_name (message m) = str "message"
packet_name (iq q) = str "iq"
packet_name (presence p) = str "presence"
packet_name _ = []

match_type : List GoString → Packet → Bool
match_type m (iq q) = match_in_array m q.attrs.kind
match_type m (presence p) = match_in_array m p.attrs.kind
match_type m (message p) =
    match_in_array m (if is_empty p.attrs.kind then str "normal" else p.attrs.kind)
match_type m _ = false

match_payload : List GoString → Option IqPayload → Bool
match_payload m none = false
match_payload m (some payload) = match_in_array m (namespace payload)

match_iq : List GoString → Packet → Bool
unfolding match_payload
match_iq m (iq q) = match_payload m q.payload
match_iq m _ = false

-- The method Match of the matchers; the one of a user may be any test.
unfoldable pub match_matcher : Matcher → Packet → Bool
unfolding packet_name match_type match_iq
match_matcher (name_matcher n) p = packet_name p == n
match_matcher (ns_type_matcher m) p = match_type m p
match_matcher (ns_iq_matcher m) p = match_iq m p
match_matcher (custom_matcher f) p = f p

-- The loop of Route.Match: every matcher has to match.
unfoldable pub match_all : List Matcher → Packet → Bool
match_all [] p = true
match_all (m ∷ ms) p = if match_matcher m p then match_all ms p else false

-- The handlers are the user's code: a type of names for them. A route may have none yet.
module _ (H : Type 0) where
  pub record Route : Type 0 where
    pub handler : Option H
    pub matchers : List Matcher

  pub record Router : Type 0 where
    pub routes : List (Route)
    pub iq_result_routes : Assoc GoString ℕ

-- types[k] = strings.ToLower(v) for each of the arguments
unfoldable pub lower_all : List GoString → List GoString
lower_all [] = []
lower_all (s ∷ l) = to_lower s ∷ lower_all l

module _ {H : Type 0} where
  abbrev pub new_router : Router H
  new_router = record { routes = []; iq_result_routes = [] }

  unfoldable pub add_matcher : Matcher → Route H → Route H
  add_matcher m r = record r { matchers = r.matchers ++ m ∷ [] }

  unfoldable pub packet : GoString → Route H → Route H
  unfolding add_matcher
  packet name r = add_matcher (name_matcher (to_lower name)) r

  unfoldable pub stanza_type : List GoString → Route H → Route H
  unfolding add_matcher lower_all
  stanza_type types r = add_matcher (ns_type_matcher (lower_all types)) r

  unfoldable pub iq_namespaces : List GoString → Route H → Route H
  unfolding add_matcher lower_all
  iq_namespaces namespaces r = add_matcher (ns_iq_matcher (lower_all namespaces)) r

  -- Route.Handler and Route.HandlerFunc
  unfoldable pub with_handler : H → Route H → Route H
  with_handler h r = record r { handler = some h }

  -- Router.NewRoute, and what is then done to the new route through its pointer.
  unfoldable pub new_route : (Route H → Route H) → Router H → Router H
  new_route setup r = record r {
    routes = r.routes ++ setup (record { handler = none; matchers = [] }) ∷ [];
  }

  -- Router.Handle and Router.HandleFunc
  unfoldable pub handle : GoString → H → Router H → Router H
  unfolding new_route packet with_handler
  handle name h r = new_route (λ t. with_handler h (packet name t)) r

  -- Route.Match
  unfoldable pub match_route : Route H → Packet → Bool
  unfolding match_all
  match_route r p = match_all r.matchers p

  -- Router.Match: the first route that matches.
  unfoldable pub match_routes : List (Route H) → Packet → Option (Route H)
  match_routes [] p = none
  match_routes (r ∷ rs) p = if match_route r p then some r else match_routes rs p

  -- Router.NewIQResultRoute with the new channel `chan`, up to the goroutine that it starts.
  unfoldable pub new_iq_result_route : GoString → ℕ → Router H → Router H
  new_iq_result_route id chan r = record r { iq_result_routes = insert id chan r.iq_result_routes }

  -- Router.RemoveIQResultRoute; the goroutine does the same once the context is done.
  unfoldable pub remove_iq_result_route : GoString → Router H → Router H
  remove_iq_result_route id r = record r { iq_result_routes = remove id r.iq_result_routes }
