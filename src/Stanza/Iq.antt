-- ===== src/Stanza/Iq.antt =====
-- stanza/iq.go: making IQs, answering them with an error, and their validity.
use go_xmpp.Text.{GoString, is_blank, is_empty, is_space, str, text_eq, text_eq_instance}
use go_xmpp.Stanza.Packet.{Attrs, Err, Iq}
use go_xmpp.Prelude.{
  Bool, Option, arith, false, if◌then◌else◌, inl, inr, is_some, nat_eq, none, not, refl, some, true,
  ◌&&◌, ◌==◌, ◌||◌, ◌↔◌, ◌≡◌, ◌⊎◌,
}

-- StanzaType.IsEmpty of packet_enum.go
unfoldable pub is_empty_type : GoString → Bool
is_empty_type kind = is_blank kind

pub data IqError : Type 0 where
  type_unset id_unset get_set_no_payload result_two_payloads error_no_error : IqError

-- NewIQ: `fresh` is what uuid.NewRandom gives, `none` if it fails. A nil error is `inl`.
unfoldable pub new_iq : Option GoString → Attrs → Iq ⊎ IqError
unfolding is_empty_type
new_iq fresh a =
    let a' : Attrs =
      if is_empty a.id then elim fresh [ none ↦ a | some id ↦ record a { id = id } ] else a in
    if is_empty_type a'.kind
    then inr type_unset
    else inl (record { attrs = a'; payload = none; error = none; any = none })

-- IQ.MakeError turns the IQ itself into the reply.
unfoldable pub make_error : Err → Iq → Iq
make_error xerror q = record q {
  attrs = record q.attrs { kind = str "error"; from = q.attrs.to; to = q.attrs.from };
  error = some xerror;
}

-- IQ.IsValid: `none` if the IQ is valid, and the reason if not.
unfoldable pub is_valid : Iq → Option IqError
unfolding is_empty_type
is_valid q =
    let kind = q.attrs.kind in
    if is_blank q.attrs.id
    then some id_unset
    else if is_empty_type kind
    then some type_unset
    else if (kind == str "get" || kind == str "set")
        && (not (is_some q.payload) && not (is_some q.any))
    then some get_set_no_payload
    else if kind == str "result" && (is_some q.payload && is_some q.any)
    then some result_two_payloads
    else if kind == str "error" && not (is_some q.error)
    then some error_no_error
    else none

error_not_blank : is_blank (str "error") ≡ false
unfolding is_blank str is_space
error_not_blank = refl

error_not_get : (str "error" == str "get") ≡ false
unfolding text_eq str
error_not_get = refl

error_not_set : (str "error" == str "set") ≡ false
unfolding text_eq str
error_not_set = refl

error_not_result : (str "error" == str "result") ≡ false
unfolding text_eq str
error_not_result = refl

-- The reply that MakeError makes swaps the addresses, keeps the id, the language and the payload,
-- carries the error, and is a valid IQ exactly if its id is not blank, whatever the IQ was.
pub make_error_lem :
    (e : Err) (q : Iq)
    → ((make_error e q).attrs.to ≡ q.attrs.from)
      × ((make_error e q).attrs.from ≡ q.attrs.to)
      × ((make_error e q).attrs.id ≡ q.attrs.id)
      × ((make_error e q).payload ≡ q.payload)
      × ((make_error e q).error ≡ some e)
      × ((is_valid (make_error e q) ≡ none) ↔ (is_blank q.attrs.id ≡ false))
unfolding make_error is_valid
make_error_lem e q = (
  refl,
  refl,
  refl,
  refl,
  refl,
  ground (arith, error_not_blank, error_not_get, error_not_set, error_not_result),
)

-- NewIQ refuses exactly a blank type; otherwise the type is kept, an id that was given is kept, and
-- an empty one is the fresh id.
pub new_iq_lem :
    (id : GoString) (a : Attrs)
    → (is_blank a.kind ≡ true → new_iq (some id) a ≡ inr type_unset)
      × (is_blank a.kind ≡ false
          → (q : Iq) × (new_iq (some id) a ≡ inl q)
            × (q.attrs.kind ≡ a.kind)
            × (q.attrs.id ≡ (if is_empty a.id then id else a.id)))
unfolding new_iq
new_iq_lem id a = (
  λ h. ground arith,
  λ h. (
    record { attrs = filled; payload = none; error = none; any = none },
    ground arith,
    ground arith,
    ground arith,
  ),
)
  where
    filled : Attrs
    filled = if is_empty a.id then record a { id = id } else a
