-- ===== src/Stanza/Error/Extent.antt =====
-- stanza/error.go: where the tokens of a written error end.
use mathlib.Core.Path.{subst}
use go_xmpp.Text.{GoString}
use go_xmpp.Result.{ok}
use go_xmpp.Stanza.Packet.{Err, no_err}
use go_xmpp.Stanza.Xml.{Fault, Token, decode_element, element_tokens, end_token, eof}
use go_xmpp.Stanza.Node.Extent.{both, prefixed, prefixed-nil}
use go_xmpp.Stanza.Error.{
  err_body, err_start, err_text_tokens, error_tag, reason_tokens, unmarshal_err,
}
use go_xmpp.Stanza.Error.RoundTrip.{IsCode, IsCondition, unmarshal-marshal_err}
use go_xmpp.Prelude.{
  List, Option-cases, [], ap, append-nil, append_assoc, arith, inl, inr, refl, some, suc, ℕ, ◌++◌,
  ◌∙◌, ◌∷◌, ◌≡◌,
}

reason-at :
    (reason : GoString) (d : ℕ) (us : List Token)
    → element_tokens d (reason_tokens reason ++ us)
      ≡ prefixed (reason_tokens reason) (element_tokens d us)
unfolding element_tokens
reason-at [] d us = prefixed-nil (element_tokens d us)
reason-at (c ∷ s) d us = elim (Option-cases (element_tokens d us)) [
  | inl q ↦ ground (arith, q)
  | inr (p, q) ↦ ground (arith, q)
]

text-at :
    (text : GoString) (d : ℕ) (us : List Token)
    → element_tokens d (err_text_tokens text ++ us)
      ≡ prefixed (err_text_tokens text) (element_tokens d us)
unfolding element_tokens
text-at [] d us = prefixed-nil (element_tokens d us)
text-at (c ∷ s) d us = elim (Option-cases (element_tokens d us)) [
  | inl q ↦ ground (arith, q)
  | inr (p, q) ↦ ground (arith, q)
]

end-at :
    (space : GoString) (d : ℕ) (us : List Token)
    → element_tokens (suc d) ((end_token (error_tag space) ∷ []) ++ us)
      ≡ prefixed (end_token (error_tag space) ∷ []) (element_tokens d us)
unfolding element_tokens
end-at space d us = refl

pub err_body-at :
    (space : GoString) (x : Err) (d : ℕ) (us : List Token)
    → element_tokens (suc d) (err_body space x ++ us)
      ≡ prefixed (err_body space x) (element_tokens d us)
err_body-at space x d us =
    both (reason_tokens x.reason) (err_text_tokens x.text ++ end_token (error_tag space) ∷ []) us
      (suc d) (suc d) d
      (reason-at x.reason (suc d)
        ((err_text_tokens x.text ++ end_token (error_tag space) ∷ []) ++ us))
      (both (err_text_tokens x.text) (end_token (error_tag space) ∷ []) us (suc d) (suc d) d
        (text-at x.text (suc d) ((end_token (error_tag space) ∷ []) ++ us)) (end-at space d us))

err_body-end :
    (space : GoString) (x : Err) (us : List Token)
    → element_tokens 0 (err_body space x ++ us) ≡ some (err_body space x, us)
unfolding element_tokens
err_body-end space x us =
    ap (element_tokens 0) (
      append_assoc (reason_tokens x.reason)
        (err_text_tokens x.text ++ end_token (error_tag space) ∷ []) us)
    ∙ reason-at x.reason 0 ((err_text_tokens x.text ++ end_token (error_tag space) ∷ []) ++ us)
    ∙ ap (prefixed (reason_tokens x.reason)) (
        ap (element_tokens 0)
          (append_assoc (err_text_tokens x.text) (end_token (error_tag space) ∷ []) us)
        ∙ text-at x.text 0 (end_token (error_tag space) ∷ us))

own_read :
    (space : GoString) (x : Err)
    → IsCode x.code
    → IsCondition x.reason
    → unmarshal_err no_err (err_start space x) eof (err_body space x) ≡ ok (x, [])
own_read space x h k =
    subst (λ ts. unmarshal_err no_err (err_start space x) eof ts ≡ ok (x, []))
      (append-nil (err_body space x)) (unmarshal-marshal_err space x eof [] h k)

-- DecodeElement reads an error that was written, and leaves what follows it.
pub decode_err-marshal_err :
    (space : GoString) (x : Err) (fault : Fault) (rest : List Token)
    → IsCode x.code
    → IsCondition x.reason
    → decode_element (unmarshal_err no_err) (err_start space x) fault (err_body space x ++ rest)
      ≡ ok (x, rest)
unfolding decode_element
decode_err-marshal_err space x fault rest h k =
    ground (arith, err_body-end space x rest, own_read space x h k)
