-- ===== src/Stanza/Failed.antt =====
-- SMFailed.UnmarshalXML of stanza/stream_management.go, and the names of stanza/stanza_errors.go.
use go_xmpp.Text.{GoString, mem_text, str, text_eq, text_eq_instance}
use go_xmpp.Result.{err, ok, text_error, ◌>>=◌}
use go_xmpp.Stanza.Xml.{Decode, StartElement, decode_made, name_eq_instance}
use go_xmpp.Stanza.Xml.Loop.{read_children}
use go_xmpp.Stanza.Error.{stanza_errors}
use go_xmpp.Prelude.{
  All, List, Option, [], arith, if◌then◌else◌, nat_eq, none, some, true, ◌==◌, ◌∷◌, ◌≡◌,
}

-- The cases of the switch, each with the GroupErrorName of the value that it makes.
abbrev pub group_error_names : List GoString
group_error_names =
    str "bad-format"
    ∷ str "bad-namespace-prefix"
    ∷ str "conflict"
    ∷ str "connection-timeout"
    ∷ str "host-gone"
    ∷ str "host-unknown"
    ∷ str "improper-addressing"
    ∷ str "internal-server-error"
    ∷ str "invalid-from"
    ∷ str "invalid-id"
    ∷ str "invalid-namespace"
    ∷ str "invalid-xml"
    ∷ str "not-authorized"
    ∷ str "not-well-formed"
    ∷ str "policy-violation"
    ∷ str "remote-connection-failed"
    ∷ str "resource-constraint"
    ∷ str "restricted-xml"
    ∷ str "see-other-host"
    ∷ str "system-shutdown"
    ∷ str "undefined-condition"
    ∷ str "unexpected-request"
    ∷ str "unsupported-encoding"
    ∷ str "unsupported-stanza-type"
    ∷ str "unsupported-version"
    ∷ str "xml-not-well-formed"
    ∷ []

-- The GroupErrorName of each type of stanza/stanza_errors.go.
abbrev pub stanza_error_names : List GoString
stanza_error_names =
    str "bad-format"
    ∷ str "bad-namespace-prefix"
    ∷ str "conflict"
    ∷ str "connection-timeout"
    ∷ str "host-gone"
    ∷ str "host-unknown"
    ∷ str "improper-addressing"
    ∷ str "internal-server-error"
    ∷ str "invalid-from"
    ∷ str "invalid-id"
    ∷ str "invalid-namespace"
    ∷ str "invalid-xml"
    ∷ str "not-authorized"
    ∷ str "not-well-formed"
    ∷ str "policy-violation"
    ∷ str "remote-connection-failed"
    ∷ str "reset"
    ∷ str "resource-constraint"
    ∷ str "restricted-xml"
    ∷ str "see-other-host"
    ∷ str "system-shutdown"
    ∷ str "undefined-condition"
    ∷ str "unexpected-request"
    ∷ str "unsupported-encoding"
    ∷ str "unsupported-stanza-type"
    ∷ str "unsupported-version"
    ∷ str "xml-not-well-formed"
    ∷ []

-- Every condition that is read is one of them; "reset" is the one that is never read.
group_error_names-known : All (λ n. mem_text n stanza_error_names ≡ true) group_error_names
unfolding mem_text str text_eq
group_error_names-known = ground arith

-- The struct of a condition has the namespace of stanza errors in its XMLName, which DecodeElement
-- compares.
unfoldable pub condition : StartElement → Decode GoString
unfolding decode_made
condition se fault ts =
    if se.name.space == stanza_errors
    then decode_made (λ own. ok se.name.local) fault ts
    else err (text_error (str "expected element in another name space"))

unfoldable pub failed_child : StartElement → Option GoString → Decode (Option GoString)
unfolding condition mem_text
failed_child se group fault ts =
    if mem_text se.name.local group_error_names
    then (condition se fault ts >>= λ p. ok (some p.0, p.1))
    else err (text_error (str "error is unknown"))

-- SMFailed.UnmarshalXML: the condition. The attribute h is not read.
unfoldable pub unmarshal_failed : StartElement → Decode (Option GoString)
unfolding read_children failed_child
unmarshal_failed se = read_children failed_child se.name none
