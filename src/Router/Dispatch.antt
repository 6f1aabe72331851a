-- ===== src/Router/Dispatch.antt =====
-- router.go: Router.route, SendMissingStz and iqNotImplemented. What the router needs of the client
-- or component that it answers through is an interface, and the user's handlers are recorded, not run.
pub mod Laws
use go_xmpp.Text.{GoString, str, text_eq_instance}
use go_xmpp.Result.{GoError}
use go_xmpp.Stanza.Packet.{Iq, Packet, iq, sm_answer, sm_request}
use go_xmpp.Stanza.Iq.{make_error}
use go_xmpp.Stanza.UnAckQueue.{UnAckQueue, UnAckedStz, acknowledge, int_of_uint}
use go_xmpp.Router.{Router, match_routes, remove_iq_result_route}
use go_xmpp.Prelude.{
  List, Option, [], if◌then◌else◌, length, lookup, nat_beq, nat_eq, none, pos, some, ℕ, ◌==◌, ◌||◌,
  ◌∷◌,
}

-- The type switch of `route` on the Sender: what a *Client holds, or that it is none.
pub data Acks : Type 0 where
  not_client nil_session : Acks
  queue : Option UnAckQueue → Acks

-- A Sender with state `S`. `resend` is sendWithWriter for a *Client, and SendRaw for any other.
pub record Sender (S : Type 0) : Type 0 where
  pub send : Packet → S → Option GoError × S
  pub resend : GoString → S → Option GoError × S
  pub acks : S → Acks
  pub set_queue : UnAckQueue → S → S

-- What a call of `route` does beside sending.
pub data Effect (H : Type 0) : Type 0 where
  handled : H → Packet → Effect H
  delivered : ℕ → Iq → Effect H
  closed : ℕ → Effect H
  panicked : Effect H

module _ {S : Type 0} (sender : Sender S) where
  -- The loop over `pending`: it stops at the first error.
  unfoldable pub resend_all : List UnAckedStz → S → Option GoError × S
  resend_all [] s = (none, s)
  resend_all (raw ∷ pending) s =
      let (e, s') = sender.resend raw.stz s in
      let rest = resend_all pending s' in elim e [ none ↦ rest | some failure ↦ (some failure, s') ]

  -- The request for a new acknowledgement, if anything was sent again.
  unfoldable pub request : List UnAckedStz → Option GoError × S → Option GoError × S
  request pending (some e, s) = (some e, s)
  request [] (none, s) = (none, s)
  request (raw ∷ pending) (none, s) = sender.send sm_request s

  unfoldable pub send_missing_stz : ℕ → Option UnAckQueue → S → Option GoError × S
  unfolding resend_all request
  send_missing_stz last_sent none s = (none, s)
  send_missing_stz last_sent (some uaq) s =
      if nat_beq (length uaq.uslice) 0
      then (none, s)
      else let rest = acknowledge last_sent uaq in
        request rest.uslice (resend_all rest.uslice (sender.set_queue rest s))

  unfoldable pub iq_not_implemented : Iq → S → S
  iq_not_implemented q s =
      (sender.send
        (iq (
          make_error
            (record {
              code = pos 501;
              kind = str "cancel";
              reason = str "feature-not-implemented";
              text = [];
            })
            q))
        s).1

  -- Where nothing matches: an IQ of type get or set is answered.
  unmatched : Packet → S → S
  unfolding iq_not_implemented
  unmatched (iq q) s =
      if q.attrs.kind == str "get" || q.attrs.kind == str "set" then iq_not_implemented q s else s
  unmatched _ s = s

  answered : ℕ → Acks → S → Option S
  unfolding int_of_uint
  answered h not_client s = some s
  answered h nil_session s = none
  answered h (queue q) s = some (send_missing_stz (int_of_uint h) q s).1

module _ {H : Type 0} where
  -- match.Handler.HandlePacket(s, p): a route without a handler is a nil interface.
  unfoldable pub run_handler : Option H → Packet → List (Effect H)
  run_handler none p = panicked ∷ []
  run_handler (some h) p = handled h p ∷ []

  -- The handler of the first route that matches, if one does.
  abbrev pub run_matched : Router H → Packet → List (Effect H)
  run_matched r p = elim (match_routes r.routes p) [ none ↦ [] | some m ↦ run_handler m.handler p ]

module _ {H S : Type 0} (sender : Sender S) where
  -- `if r.Match(p, &match) { match.Handler.HandlePacket(s, p) }` and what follows it.
  by_routes : Packet → Router H → S → Router H × S × List (Effect H)
  unfolding unmatched run_handler
  by_routes p r s = elim (match_routes r.routes p) [
    | none ↦ (r, unmatched sender p s, [])
    | some t ↦ (r, s, run_handler t.handler p)
  ]

  by_result : Iq → Option ℕ → Router H → S → Router H × S × List (Effect H)
  unfolding by_routes
  by_result q none r s = by_routes (iq q) r s
  by_result q (some chan) r s =
      (remove_iq_result_route q.attrs.id r, s, delivered chan q ∷ closed chan ∷ [])

  by_answer : Packet → Option S → Router H → S → Router H × S × List (Effect H)
  unfolding by_routes
  by_answer p none r s = (r, s, panicked ∷ [])
  by_answer p (some s') r s = by_routes p r s'

  unfoldable pub route : Packet → Router H → S → Router H × S × List (Effect H)
  unfolding by_result by_answer answered
  route (sm_answer h) r s = by_answer (sm_answer h) (answered sender h (sender.acks s) s) r s
  route (iq q) r s = by_result q (lookup q.attrs.id r.iq_result_routes) r s
  route p r s = by_routes p r s
