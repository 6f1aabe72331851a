-- ===== src/Stanza/PubSub/FormFields.antt =====
-- IQ.GetFormFields of stanza/pubsub_owner.go.
use go_xmpp.Text.{GoString, str, text_eq_iff, text_eq_instance}
use go_xmpp.Result.{Result, err, ok, panic, text_error}
use go_xmpp.Stanza.Payload.{Field, Form, Node, Nodes, next_node, no_nodes, node}
use go_xmpp.Stanza.Payload.PubSub.{
  CommandElement, Configure, OwnerUseCase, PubSubOwner, configure_owner, form_element,
}
use go_xmpp.Stanza.Packet.{Iq, IqPayload, command, pub_sub, pub_sub_owner}
use go_xmpp.Prelude.{
  Assoc, List, Option, [], arith, if◌then◌else◌, insert, lookup, lookup-insert, nat_eq, none, not,
  refl, some, ◌==◌, ◌∷◌, ◌≡◌,
}

abbrev pub FieldMap : Type 0
FieldMap = Assoc GoString Field

-- `for _, elt := range fields { fieldMap[elt.Var] = elt }`
unfoldable pub add_fields : List Field → FieldMap → FieldMap
add_fields [] m = m
add_fields (f ∷ l) m = add_fields l (insert f.variable f m)

-- The fields of a form; a nil form is a panic.
abbrev pub fields_of_form : Option Form → Result FieldMap
fields_of_form none = err panic
fields_of_form (some form) = ok (add_fields form.fields [])

abbrev pub fields_of_configure : Option Configure → Result FieldMap
fields_of_configure none = err panic
fields_of_configure (some c) = fields_of_form c.form

abbrev pub fields_of_owner : Option OwnerUseCase → Result FieldMap
fields_of_owner (some (configure_owner n form)) = fields_of_form form
fields_of_owner _ = err (
    text_error (
      str "this IQ does not contain a PubSub payload with a configure tag for the owner namespace"))

abbrev pub fields_of_command : Option CommandElement → Result FieldMap
fields_of_command (some (form_element form)) = fields_of_form (some form)
fields_of_command _ =
    err (text_error (str "this IQ does not contain a command payload with a form"))

abbrev pub local_of : Node → GoString
local_of (node n attrs text nodes) = n.local

abbrev pub nodes_of : Node → Nodes
nodes_of (node n attrs text nodes) = nodes

abbrev pub put_field : Option Field → FieldMap → FieldMap
put_field none m = m
put_field (some f) m = insert f.variable f m

-- `as_field` is what xml.Unmarshal makes of the node once it is marshalled, `none` for an error.
module _ (as_field : Node → Option Field) where
  unfoldable pub add_field_nodes : Nodes → FieldMap → FieldMap
  add_field_nodes no_nodes m = m
  add_field_nodes (next_node n l) m =
      add_field_nodes l (if local_of n == str "field" then put_field (as_field n) m else m)

  unfoldable pub add_x_nodes : Nodes → FieldMap → FieldMap
  unfolding add_field_nodes
  add_x_nodes no_nodes m = m
  add_x_nodes (next_node n l) m =
      add_x_nodes l (if local_of n == str "x" then add_field_nodes (nodes_of n) m else m)

  fields_of_any : Option Node → Result FieldMap
  unfolding add_x_nodes
  fields_of_any none = err (text_error (str "this IQ does not contain a form"))
  fields_of_any (some n) =
      if not (local_of n == str "command")
      then err (text_error (str "this IQ does not contain a form"))
      else ok (add_x_nodes (nodes_of n) [])

  fields_by_payload : Option IqPayload → Option Node → Result FieldMap
  unfolding add_fields fields_of_any
  fields_by_payload (some (pub_sub p)) any = fields_of_configure p.configure
  fields_by_payload (some (pub_sub_owner p)) any = fields_of_owner p.owner_use_case
  fields_by_payload (some (command c)) any = fields_of_command c.command_element
  fields_by_payload _ any = fields_of_any any

  unfoldable pub get_form_fields : Iq → Result FieldMap
  unfolding fields_by_payload
  get_form_fields q =
      if not (q.attrs.kind == str "result")
      then err (text_error (str "this IQ is not a result type IQ. Cannot extract the form from it"))
      else fields_by_payload q.payload q.any

-- The last field of a name.
unfoldable pub last_field : GoString → List Field → Option Field → Option Field
last_field v [] held = held
last_field v (f ∷ l) held = last_field v l (if f.variable == v then some f else held)

lookup-add_fields :
    (v : GoString) (l : List Field) (m : FieldMap)
    → lookup v (add_fields l m) ≡ last_field v l (lookup v m)
unfolding add_fields last_field
lookup-add_fields v [] m = refl
lookup-add_fields v (f ∷ l) m =
    ground (arith, lookup-add_fields v l (insert f.variable f m), lookup-insert f.variable v f m)

-- The fields that GetFormFields gives for the configuration of a node, for one whose form is there: each
-- name is looked up to the last field of that name in the form.
pub get_form_fields-owner :
    (as_field : Node → Option Field) (q : Iq) (p : PubSubOwner) (n : GoString) (form : Form)
    → q.attrs.kind ≡ str "result"
    → q.payload ≡ some (pub_sub_owner p)
    → p.owner_use_case ≡ some (configure_owner n (some form))
    → (m : FieldMap) × (get_form_fields as_field q ≡ ok m)
      × ((v : GoString) → lookup v m ≡ last_field v form.fields none)
unfolding get_form_fields fields_by_payload lookup
get_form_fields-owner as_field q p n form h k e = (
  add_fields form.fields [],
  ground (arith, h, k, e, text_eq_iff q.attrs.kind (str "result")),
  (λ v. lookup-add_fields v form.fields []),
)
