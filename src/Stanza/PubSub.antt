-- ===== src/Stanza/PubSub.antt =====
-- stanza/pubsub.go: the requests of publish-subscribe, as IQs.
pub mod Owner
pub mod Laws
pub mod FormFields
pub mod Decode
pub mod Event
use go_xmpp.Text.{GoString, is_blank, str, text_eq_instance}
use go_xmpp.Result.{GoError, Result, err, ok, panic, text_error}
use go_xmpp.Stanza.Payload.{Form, node}
use go_xmpp.Stanza.Payload.PubSub.{Item, PubSubGeneric, PublishOptions, SubInfo, no_pub_sub}
use go_xmpp.Stanza.Packet.{Attrs, Iq, IqPayload, pub_sub}
use go_xmpp.Stanza.Jid.{bare, new_jid}
use go_xmpp.Stanza.Iq.{IqError, new_iq}
use go_xmpp.Prelude.{
  Bool, List, Option, [], if◌then◌else◌, inl, inr, nat_eq, none, not, pos, some, ℤ, ◌++◌, ◌==◌, ◌∷◌,
  ◌⊎◌,
}

-- SubInfo.validate: nil is `none`.
unfoldable pub validate : SubInfo → Option GoError
unfolding is_blank
validate si = elim (new_jid si.jid).1 [
  | some e ↦ some e
  | none ↦
      if is_blank si.node
      then some (
          text_error (
            str
              "SubInfo must contain the node AND the subscriber JID in subscription config options requests"))
      else none
]

-- `if e := ...; e != nil { return nil, e }`
abbrev pub unless_error : {A : Type 0} → Option GoError → Result A → Result A
unless_error none next = next
unless_error (some e) next = err e

abbrev pub no_attrs : Attrs
no_attrs = record { kind = []; id = []; from = []; to = []; lang = [] }

abbrev pub with_payload : IqPayload → Iq ⊎ IqError → Result Iq
with_payload p (inl q) = ok (record q { payload = some p })
with_payload p (inr e) = err (text_error (str "iq type is not set but is mandatory"))

-- NewIQ(Attrs{Type: kind, To: service}), then its payload. `fresh` is what uuid.NewRandom gives.
unfoldable pub request_of : Option GoString → GoString → GoString → IqPayload → Result Iq
unfolding new_iq
request_of fresh kind service p =
    with_payload p (new_iq fresh (record no_attrs { kind = kind; to = service }))

-- `if form.Type != FormTypeSubmit`; reading the field through a nil pointer is a panic.
abbrev pub unless_submitted : {A : Type 0} → Option Form → Result A → Result A
unless_submitted none next = err panic
unless_submitted (some form) next =
    if not (form.kind == str "submit")
    then err (text_error (str "form type was expected to be submit but was : " ++ form.kind))
    else next

abbrev pub an_item : GoString → Item
an_item id = record { id = id; publisher = []; any = none }

abbrev pub no_target : GoString → Result Iq
no_target m = err (text_error m)

module _ (fresh : Option GoString) (service_id : GoString) where
  unfoldable pub set_request : PubSubGeneric → Result Iq
  unfolding request_of
  set_request p = request_of fresh (str "set") service_id (pub_sub p)

  unfoldable pub get_request : PubSubGeneric → Result Iq
  unfolding request_of
  get_request p = request_of fresh (str "get") service_id (pub_sub p)

  unfoldable pub new_sub_rq : SubInfo → Result Iq
  unfolding set_request validate
  new_sub_rq info =
      unless_error (validate info) (set_request (record no_pub_sub { subscribe = some info }))

  unfoldable pub new_unsub_rq : SubInfo → Result Iq
  unfolding set_request validate
  new_unsub_rq info =
      unless_error (validate info) (set_request (record no_pub_sub { unsubscribe = some info }))

  unfoldable pub new_sub_opts_rq : SubInfo → Result Iq
  unfolding get_request validate
  new_sub_opts_rq info = unless_error (validate info) (
      get_request
        (record no_pub_sub { sub_options = some (record { sub_info = info; form = none }) }))

  unfoldable pub new_form_submission : SubInfo → Option Form → Result Iq
  unfolding set_request validate
  new_form_submission info form = unless_error (validate info) (
      unless_submitted form (
        set_request
          (record no_pub_sub { sub_options = some (record { sub_info = info; form = form }) })))

  unfoldable pub new_sub_and_config : SubInfo → Option Form → Result Iq
  unfolding set_request validate
  new_sub_and_config info form =
      let bare : SubInfo = record { node = []; jid = []; sub_id = info.sub_id } in
      unless_error (validate info) (
        unless_submitted form (
          set_request (record no_pub_sub {
            subscribe = some info;
            sub_options = some (record { sub_info = bare; form = form });
          })))

  -- With maxItems 0, the field is left at 0.
  unfoldable pub new_items_request : GoString → ℤ → Result Iq
  unfolding get_request
  new_items_request node_name max_items = get_request (record no_pub_sub {
    items = some (record { list = []; max_items = max_items; node = node_name; sub_id = [] });
  })

  unfoldable pub new_specific_item_request : GoString → GoString → Result Iq
  unfolding get_request
  new_specific_item_request node_name item_id = get_request (record no_pub_sub {
    items =
        some (record {
          list = an_item item_id ∷ [];
          max_items = pos 0;
          node = node_name;
          sub_id = [];
        });
  })

  unfoldable pub new_publish_item_rq : GoString → GoString → Item → Result Iq
  unfolding set_request is_blank
  new_publish_item_rq node_id pub_item_id item =
      let item' : Item =
        if not (is_blank pub_item_id) then record item { id = pub_item_id } else item in
      if is_blank node_id
      then no_target (str "cannot publish without a target node ID")
      else set_request
          (record no_pub_sub { publish = some (record { node = node_id; items = item' ∷ [] }) })

  unfoldable pub new_publish_item_opts_rq : GoString → List Item → Option PublishOptions → Result Iq
  unfolding set_request is_blank
  new_publish_item_opts_rq node_id items options =
      if is_blank node_id
      then no_target (str "cannot publish without a target node ID")
      else set_request (record no_pub_sub {
        publish = some (record { node = node_id; items = items });
        publish_options = options;
      })

  unfoldable pub new_del_item_from_node : GoString → GoString → Option Bool → Result Iq
  unfolding set_request is_blank
  new_del_item_from_node node_id item_id notify =
      if is_blank node_id
      then no_target (str "cannot delete item without a target node ID")
      else set_request (record no_pub_sub {
        retract = some (record { node = node_id; notify = notify; items = an_item item_id ∷ [] });
      })

  unfoldable pub new_create_and_config_node : GoString → Option Form → Result Iq
  unfolding set_request
  new_create_and_config_node node_id conf_form = set_request (record no_pub_sub {
    create = some (record { node = node_id });
    configure = some (record { form = conf_form });
  })

  unfoldable pub new_create_node : GoString → Result Iq
  unfolding set_request
  new_create_node node_name =
      set_request (record no_pub_sub { create = some (record { node = node_name }) })

  unfoldable pub new_retrieve_all_subs_request : Result Iq
  unfolding get_request
  new_retrieve_all_subs_request = get_request (record no_pub_sub { subscriptions = some [] })

  unfoldable pub new_retrieve_all_affils_request : Result Iq
  unfolding get_request
  new_retrieve_all_affils_request =
      get_request (record no_pub_sub { affiliations = some (record { list = []; node = [] }) })
