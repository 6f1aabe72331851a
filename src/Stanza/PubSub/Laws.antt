-- ===== src/Stanza/PubSub/Laws.antt =====
-- stanza/pubsub.go: the answers that validate refuses.
use go_xmpp.Stanza.Jid.{new_jid}
use go_xmpp.Stanza.Payload.PubSub.{SubInfo}
use go_xmpp.Text.{GoString, is_blank, text_eq_instance}
use go_xmpp.Result.{GoError, err}
use go_xmpp.Stanza.Payload.{Form}
use go_xmpp.Stanza.PubSub.{
  new_form_submission, new_sub_and_config, new_sub_opts_rq, new_sub_rq, new_unsub_rq, validate,
}
use go_xmpp.Prelude.{Option, arith, nat_eq, some, true, ◌≡◌, ◌⊎◌}

-- A subscription info that is refused has an address that is refused, or a blank node; the five
-- requests that have one return its error, whatever the form.
pub validate_refused :
    (fresh : Option GoString) (service : GoString) (si : SubInfo) (f : Option Form) (e : GoError)
    → validate si ≡ some e
    → (((new_jid si.jid).1 ≡ some e) ⊎ (is_blank si.node ≡ true))
      × (new_sub_rq fresh service si ≡ err e)
      × (new_unsub_rq fresh service si ≡ err e)
      × (new_sub_opts_rq fresh service si ≡ err e)
      × (new_form_submission fresh service si f ≡ err e)
      × (new_sub_and_config fresh service si f ≡ err e)
unfolding validate new_sub_rq new_unsub_rq new_sub_opts_rq new_form_submission new_sub_and_config
validate_refused fresh service si f e q = (
  ground (arith, q),
  ground (arith, q),
  ground (arith, q),
  ground (arith, q),
  ground (arith, q),
  ground (arith, q),
)
