-- ===== src/Auth/Fields.antt =====
-- auth.go: parseSCRAMFields, the attributes of a SCRAM message.
pub mod RoundTrip
use go_xmpp.Text.{GoString, str, text_eq_instance}
use go_xmpp.Text.Split.{split, split_2}
use go_xmpp.Result.{Result, err, ok, text_error}
use go_xmpp.Prelude.{
  Assoc, List, Option, [], if◌then◌else◌, insert, is_some, lookup, nat_eq, none, some, ◌++◌, ◌∷◌,
}

-- One attribute: a name, and the value behind the first "=".
add_field :
    GoString
    → GoString × Option GoString
    → Assoc GoString GoString
    → Result (Assoc GoString GoString)
add_field [] kv fields = err (text_error (str "scram: empty attribute"))
add_field (c ∷ part) (k, none) fields = err (text_error (str "scram: malformed attribute"))
add_field (c ∷ part) (k, some v) fields =
    if is_some (lookup k fields)
    then err (text_error (str "scram: duplicate attribute " ++ k))
    else ok (insert k v fields)

add_fields : List GoString → Assoc GoString GoString → Result (Assoc GoString GoString)
unfolding add_field
add_fields [] fields = ok fields
add_fields (part ∷ parts) fields = elim (add_field part (split_2 b'=' part) fields) [
  | err e ↦ err e
  | ok fields' ↦ add_fields parts fields'
]

unfoldable pub parse_scram_fields : GoString → Result (Assoc GoString GoString)
unfolding add_fields
parse_scram_fields message = add_fields (split b',' message) []
