-- ===== src/Client/Lifetime.antt =====
-- The queue of unacknowledged stanzas over the life of a client: it is connected, used, disconnected,
-- and connected or resumed again, in any order.
use go_xmpp.Client.{Client}
use go_xmpp.Client.Connect.{connect_client, disconnect, resume_client}
use go_xmpp.Client.Connect.Queue.{connect_client-IsRenewed, disconnect-session}
use go_xmpp.Client.QueueChange.{IsChanged-IsConsecutive, Step, Step-IsChanged}
use go_xmpp.Client.Unacked.{un_acked_of}
use go_xmpp.Session.{Codec}
use go_xmpp.Session.Queue.{IsRenewed}
use go_xmpp.Stanza.UnAckQueue.{UnAckQueue}
use go_xmpp.Stanza.UnAckQueue.Ids.{IsConsecutive}
use mathlib.Core.Path.{subst}
use go_xmpp.Prelude.{Option, arith, inl, inr, none, sym, ◌≡◌}

IsRenewed-IsConsecutive :
    (q q' : Option UnAckQueue) → IsRenewed q q' → IsConsecutive q → IsConsecutive q'
IsRenewed-IsConsecutive q q' (inl e) w = subst IsConsecutive (sym e) w
IsRenewed-IsConsecutive q q' (inr (inl (h, u, e, f))) w =
    IsChanged-IsConsecutive q q' (inr (inr (h, u, e, f))) w
IsRenewed-IsConsecutive q q' (inr (inr (inl e))) w = subst IsConsecutive (sym e) tt
IsRenewed-IsConsecutive q q' (inr (inr (inr e))) w = subst IsConsecutive (sym e) (0, tt)

module _ {H : Type 0} (c : Codec) where
  pub data Event : Client H → Client H → Type 0 where
    uses : {a b : Client H} → Step c a b → Event a b
    connects : (cl : Client H) → Event cl (connect_client c cl).1
    resumes : (cl : Client H) → Event cl (resume_client c cl).1
    disconnects : (cl : Client H) → Event cl (disconnect cl)

  pub data Life : Client H → Client H → Type 0 where
    idle : (cl : Client H) → Life cl cl
    then_event : {a b d : Client H} → Event a b → Life b d → Life a d

  Event-IsConsecutive :
      (a b : Client H) → Event a b → IsConsecutive (un_acked_of a) → IsConsecutive (un_acked_of b)
  Event-IsConsecutive a b (uses s) w =
      IsChanged-IsConsecutive (un_acked_of a) (un_acked_of b) (Step-IsChanged c a b s) w
  Event-IsConsecutive a b (connects cl) w =
      IsRenewed-IsConsecutive (un_acked_of a) (un_acked_of b) (connect_client-IsRenewed c cl).0 w
  Event-IsConsecutive a b (resumes cl) w =
      IsRenewed-IsConsecutive (un_acked_of a) (un_acked_of b) (connect_client-IsRenewed c cl).1 w
  Event-IsConsecutive a b (disconnects cl) w =
      IsRenewed-IsConsecutive (un_acked_of a) (un_acked_of b)
        (inl (ground (arith, disconnect-session cl))) w

  empty_start : (cl : Client H) → cl.session ≡ none → none ≡ un_acked_of cl
  empty_start cl e = ground (arith, e)

  Life-IsConsecutive_from :
      (a b : Client H) → Life a b → IsConsecutive (un_acked_of a) → IsConsecutive (un_acked_of b)
  Life-IsConsecutive_from a b (idle cl) w = w
  Life-IsConsecutive_from a b (then_event {b = m} s rest) w =
      Life-IsConsecutive_from m b rest (Event-IsConsecutive a m s w)

  -- A client that starts without a session, and is then connected, used, disconnected and connected or
  -- resumed again in any order, has consecutive ids in its queue at every moment, whatever the server
  -- sends and whether or not the calls succeed.
  pub Life-IsConsecutive :
      (a b : Client H) → Life a b → a.session ≡ none → IsConsecutive (un_acked_of b)
  Life-IsConsecutive a b l e =
      Life-IsConsecutive_from a b l (subst IsConsecutive (empty_start a e) tt)
