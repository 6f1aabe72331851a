-- ===== src/Stanza/Error/RoundTrip.antt =====
-- stanza/error.go: what MarshalXML writes, UnmarshalXML reads.
use go_xmpp.Text.{GoString, is_empty, str, text_eq, text_eq_iff}
use go_xmpp.Text.Split.{join}
use go_xmpp.Text.Decimal.{atoi, max_int}
use go_xmpp.Text.Decimal.RoundTrip.{atoi-itoa, atoi-itoa_minus}
use go_xmpp.Result.{ok}
use go_xmpp.Stanza.Packet.{Err, Node, no_err, no_nodes, node}
use go_xmpp.Stanza.Xml.{
  Fault, Token, char_data, decode_element, element_tokens, end_token, eof, name_eq, name_eq_iff,
}
use go_xmpp.Stanza.Node.{
  closing, decode_node, marshal_nodes, node_body, unmarshal_node, written_start,
}
use go_xmpp.Stanza.Error.{
  code_or, err_attrs, err_body, err_child, err_element, err_reason, err_start, err_text_tokens,
  error_name, error_tag, itoa_int, optional_attr, reason_tokens, stanza_errors, unmarshal_err,
}
use mathlib.Core.Path.{subst}
use go_xmpp.Prelude.{
  List, [], append-nil, arith, if◌then◌else◌, length, length-append, negsuc, pos, refl, suc, sym,
  zero, ℕ, ℤ, ◌++◌, ◌<◌, ◌^◌, ◌∷◌, ◌≡◌, ◌≢◌, ◌≤◌,
}
use go_xmpp.Stanza.Node.RoundTrip.{IsPlain, height, unmarshal-marshal_node}
use go_xmpp.Stanza.Xml.Loop.{read_children, rounds}

-- A condition of RFC 6120, that is, neither of the two names that are read as a text.
abbrev pub IsCondition : GoString → Type 0
IsCondition reason = (reason ≢ str "text") × (reason ≢ str "gone")

-- A code that an int of 64 bits holds, and that is not 0.
abbrev pub IsCode : ℤ → Type 0
IsCode (pos n) = (0 < n) × (n ≤ max_int)
IsCode (negsuc n) = n < 2 ^ 63

bare : GoString → GoString → Node
bare local text = node (error_name local) [] text no_nodes

bare-read :
    (local text : GoString)
    → unmarshal_node (written_start (error_name local) []) eof (closing text (error_name local))
      ≡ ok (bare local text, [])
unfolding bare IsPlain height node_body marshal_nodes str
bare-read local text =
    subst
      (λ ts. unmarshal_node (written_start (error_name local) []) eof ts ≡ ok (bare local text, []))
      (append-nil (closing text (error_name local)))
      (unmarshal-marshal_node (bare local text) eof [] (refl, tt, tt) (omega arith))

err_reason-replaces : (held local : GoString) → err_reason held local ≡ local
unfolding err_reason join
err_reason-replaces held local = ground arith

err_element-reason :
    (x : Err) (local text : GoString)
    → IsCondition local
    → err_element (bare local text) x ≡ record x { reason = local }
unfolding err_element bare name_eq
err_element-reason x local text h = ground (
  arith,
  err_reason-replaces x.reason local,
  text_eq_iff local (str "text"),
  text_eq_iff local (str "gone"),
  text_eq_iff stanza_errors stanza_errors,
  h.0,
  h.1,
)

reason-read :
    (x : Err) (c : ℕ) (s : GoString) (fault : Fault) (ts : List Token)
    → IsCondition (c ∷ s)
    → err_child
        (written_start (error_name (c ∷ s)) [])
        x
        fault
        (end_token (error_name (c ∷ s)) ∷ ts)
      ≡ ok (record x { reason = c ∷ s }, ts)
unfolding err_child err_element err_reason decode_node decode_element element_tokens bare
reason-read x c s fault ts h =
    ground (arith, bare-read (c ∷ s) [], err_element-reason x (c ∷ s) [] h)

text-read :
    (x : Err) (c : ℕ) (s : GoString) (fault : Fault) (ts : List Token)
    → err_child
        (written_start (error_name (str "text")) [])
        x
        fault
        (char_data (c ∷ s) ∷ end_token (error_name (str "text")) ∷ ts)
      ≡ ok (record x { text = c ∷ s }, ts)
unfolding err_child err_element err_reason decode_node decode_element element_tokens bare
text-read x c s fault ts = ground (
  arith,
  bare-read (str "text") (c ∷ s),
  name_eq_iff (error_name (str "text")) (error_name (str "text")),
)

code-read : (code : ℤ) (held : ℤ) → IsCode code → code_or held (atoi (itoa_int code)) ≡ code
unfolding itoa_int
code-read (pos n) held h = ground (arith, atoi-itoa n h.1)
code-read (negsuc n) held h = ground (arith, atoi-itoa_minus (suc n))

kind-read :
    (kind : GoString) (x : Err)
    → err_attrs (optional_attr (str "type") kind) x
      ≡ (if is_empty kind then x else record x { kind = kind })
unfolding err_attrs str text_eq
kind-read [] x = refl
kind-read (c ∷ s) x = ground arith

start-read :
    (space : GoString) (x : Err)
    → IsCode x.code
    → err_attrs (err_start space x).attr no_err ≡ record no_err { kind = x.kind; code = x.code }
unfolding err_attrs err_start str text_eq
start-read space x h = ground (arith, kind-read x.kind, code-read x.code (pos 0) h)

text-rounds :
    (space text : GoString) (x : Err) (f : ℕ) (fault : Fault) (rest : List Token)
    → x.text ≡ []
    → length (err_text_tokens text ++ end_token (error_tag space) ∷ []) < f
    → rounds err_child
        (error_tag space)
        f
        x
        fault
        ((err_text_tokens text ++ end_token (error_tag space) ∷ []) ++ rest)
      ≡ ok (record x { text = text }, rest)
unfolding rounds
text-rounds space text x zero fault rest e h = absurd (omega arith)
text-rounds space [] x (suc f) fault rest e h =
    ground (arith, name_eq_iff (error_tag space) (error_tag space), e)
text-rounds space (c ∷ s) x (suc zero) fault rest e h = absurd (omega arith)
text-rounds space (c ∷ s) x (suc (suc f)) fault rest e h = ground (
  arith,
  text-read x c s fault (end_token (error_tag space) ∷ rest),
  name_eq_iff (error_tag space) (error_tag space),
  e,
)

reason-rounds :
    (space reason text : GoString) (x : Err) (f : ℕ) (fault : Fault) (rest : List Token)
    → x.reason ≡ []
    → x.text ≡ []
    → IsCondition reason
    → length (reason_tokens reason ++ (err_text_tokens text ++ end_token (error_tag space) ∷ []))
      < f
    → rounds err_child (error_tag space) f x fault (
        (reason_tokens reason ++ (err_text_tokens text ++ end_token (error_tag space) ∷ []))
        ++ rest)
      ≡ ok (record x { reason = reason; text = text }, rest)
unfolding rounds
reason-rounds space reason text x zero fault rest e k c h = absurd (omega arith)
reason-rounds space [] text x (suc f) fault rest e k c h =
    ground (arith, text-rounds space text x (suc f) fault rest k, e)
reason-rounds space (c ∷ s) text x (suc f) fault rest e k i h = ground (
  arith,
  reason-read x c s fault ((err_text_tokens text ++ end_token (error_tag space) ∷ []) ++ rest) i,
  text-rounds space text (record x { reason = c ∷ s }) f fault rest k,
)

-- An error that is written and read again is the same, in whatever default namespace and whatever
-- follows it, when its code is not 0 and
-- fits an int of 64 bits, and its reason is not "text" or "gone".
pub unmarshal-marshal_err :
    (space : GoString) (x : Err) (fault : Fault) (rest : List Token)
    → IsCode x.code
    → IsCondition x.reason
    → unmarshal_err no_err (err_start space x) fault (err_body space x ++ rest) ≡ ok (x, rest)
unfolding unmarshal_err read_children err_start
unmarshal-marshal_err space x fault rest h k =
    subst
      (λ y.
        rounds err_child (error_tag space) (suc (length (err_body space x ++ rest))) y fault
          (err_body space x ++ rest)
        ≡ ok (x, rest))
      (sym (start-read space x h))
      (reason-rounds space x.reason x.text (record no_err { kind = x.kind; code = x.code })
        (suc (length (err_body space x ++ rest))) fault rest refl refl k
        (omega (arith, length-append (err_body space x) rest)))
