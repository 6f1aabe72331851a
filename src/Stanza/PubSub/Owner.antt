-- ===== src/Stanza/PubSub/Owner.antt =====
-- stanza/pubsub_owner.go: the requests of the owner of a node.
use go_xmpp.Text.{GoString, is_blank, is_empty, str}
use go_xmpp.Result.{Result, err, ok, text_error, ◌>>=◌}
use go_xmpp.Stanza.Payload.{Field, Form, Node, new_form}
use go_xmpp.Stanza.Payload.PubSub.{
  AffiliationOwner, OwnerUseCase, SubscriptionOwner, affiliations_owner, configure_owner,
  default_owner, delete_owner, no_command, node_element, owner_of, purge_owner, subscriptions_owner,
}
use go_xmpp.Stanza.Packet.{Extension, Iq, Message, command, pub_sub_owner}
use go_xmpp.Stanza.Message.{new_message}
use go_xmpp.Stanza.PubSub.{no_attrs, request_of}
use go_xmpp.Prelude.{List, Option, [], if◌then◌else◌, none, some, ◌||◌, ◌∷◌}

abbrev pub get_pending : GoString
get_pending = str "http://jabber.org/protocol/pubsub#get-pending"

abbrev refuse : {A : Type 0} → GoString → Result A
refuse m = err (text_error m)

module _ (fresh : Option GoString) (service_id : GoString) where
  unfoldable pub set_owner : OwnerUseCase → Result Iq
  unfolding request_of
  set_owner u = request_of fresh (str "set") service_id (pub_sub_owner (owner_of u))

  unfoldable pub get_owner : OwnerUseCase → Result Iq
  unfolding request_of
  get_owner u = request_of fresh (str "get") service_id (pub_sub_owner (owner_of u))

  unfoldable pub new_configure_node : GoString → Result Iq
  unfolding get_owner
  new_configure_node node_name = get_owner (configure_owner node_name none)

  unfoldable pub new_del_node : GoString → Result Iq
  unfolding set_owner is_blank
  new_del_node node_id =
      if is_blank node_id
      then refuse (str "cannot delete a node without a target node ID")
      else set_owner (delete_owner none node_id)

  unfoldable pub new_purge_all_items : GoString → Result Iq
  unfolding set_owner
  new_purge_all_items node_id = set_owner (purge_owner node_id)

  unfoldable pub new_request_default_config : Result Iq
  unfolding get_owner
  new_request_default_config = get_owner (default_owner none)

  unfoldable pub new_get_pending_sub_requests : Result Iq
  unfolding request_of
  new_get_pending_sub_requests =
      request_of fresh (str "set") service_id
        (command (record no_command { node = get_pending; action = str "execute" }))

  -- `as_node` is what xml.Unmarshal into a Node makes of what xml.Marshal gives for the form.
  unfoldable pub new_approve_pending_sub_request :
      (Form → Result Node) → GoString → GoString → Result Iq
  unfolding request_of new_form
  new_approve_pending_sub_request as_node session_id node_id =
      let field : Field = record {
        description = [];
        required = none;
        values_list = node_id ∷ [];
        options = [];
        variable = str "pubsub#node";
        kind = [];
        label = [];
      } in
      if is_empty session_id
      then refuse (str "the sessionId must be maintained for the command")
      else as_node (new_form (field ∷ []) (str "submit")) >>= λ n.
          request_of fresh (str "set") service_id (
            command (record no_command {
              node = get_pending;
              action = str "execute";
              session_id = session_id;
              command_element = some (node_element n);
            }))

  unfoldable pub new_sub_list_rq_pl : GoString → Result Iq
  unfolding get_owner
  new_sub_list_rq_pl node_id = get_owner (subscriptions_owner [] node_id)

  unfoldable pub new_subs_for_entities_request : GoString → List SubscriptionOwner → Result Iq
  unfolding set_owner
  new_subs_for_entities_request node_id subs = set_owner (subscriptions_owner subs node_id)

  unfoldable pub new_modif_affiliation_request : GoString → List AffiliationOwner → Result Iq
  unfolding set_owner
  new_modif_affiliation_request node_id new_affils =
      set_owner (affiliations_owner new_affils node_id)

  unfoldable pub new_affiliation_list_request : GoString → Result Iq
  unfolding get_owner
  new_affiliation_list_request node_id = get_owner (affiliations_owner [] node_id)

  unfoldable pub new_form_submission_owner : GoString → List Field → Result Iq
  unfolding set_owner new_form
  new_form_submission_owner node_name fields =
      if is_empty service_id || is_empty node_name
      then refuse (str "serviceId and nodeName must be filled for this request to be valid")
      else set_owner (configure_owner node_name (some (new_form fields (str "submit"))))

-- A message to the service that approves a subscription; the form is its extension. `as_extension` is
-- the form as a value of an extension type.
unfoldable pub new_approve_sub_request :
    (Form → Extension) → GoString → GoString → Option Form → Result Message
unfolding new_message
new_approve_sub_request as_extension service_id req_id none =
    if is_empty service_id
    then refuse (str "need a target service serviceId send approval serviceId")
    else if is_empty req_id
    then refuse (str "the request ID is empty but must be used for the approval")
    else refuse (str "approval form is nil")
new_approve_sub_request as_extension service_id req_id (some form) =
    if is_empty service_id
    then refuse (str "need a target service serviceId send approval serviceId")
    else if is_empty req_id
    then refuse (str "the request ID is empty but must be used for the approval")
    else ok (record (new_message (record no_attrs { to = service_id; id = req_id })) {
      extensions = as_extension form ∷ [];
    })
