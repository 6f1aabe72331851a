-- ===== src/Stanza/Xml/Elements.antt =====
-- DecodeElement: it reads the element and no more.
use mathlib.Core.Option
use go_xmpp.Result.{GoError, Result, err, ok, ◌>>=◌}
use go_xmpp.Stanza.Xml.{
  Decode, Fault, StartElement, Token, all_read, char_data, cut_off, decode_element, decode_made,
  decode_own, decode_text, element_tokens, end_token, eof, made_of, noise, start_token,
  text_content,
}
use go_xmpp.Stanza.Xml.Consumes.{Consumes, IsRefusal, fault_error-IsRefusal, text_error-IsRefusal}
use go_xmpp.Prelude.{
  List, Option, [], arith, length, none, refl, some, suc, zero, ℕ, ◌+◌, ◌<◌, ◌∷◌, ◌≡◌,
}

IsSplit : List Token → Option (List Token × List Token) → Type 0
IsSplit ts none = Unit
IsSplit ts (some p) = (length p.0 + length p.1 ≡ length ts) × (0 < length p.0)

IsSplit-cons :
    (t : Token) (ts : List Token) (o : Option (List Token × List Token))
    → IsSplit ts o
    → IsSplit (t ∷ ts) (Option.map (λ p. (t ∷ p.0, p.1)) o)
unfolding IsSplit
IsSplit-cons t ts none h = tt
IsSplit-cons t ts (some p) h = (omega (arith, h.0), omega arith)

element_tokens-IsSplit : (depth : ℕ) (ts : List Token) → IsSplit ts (element_tokens depth ts)
unfolding element_tokens IsSplit
element_tokens-IsSplit depth [] = tt
element_tokens-IsSplit zero (end_token n ∷ ts) = (omega arith, omega arith)
element_tokens-IsSplit (suc depth) (end_token n ∷ ts) =
    IsSplit-cons (end_token n) ts (element_tokens depth ts) (element_tokens-IsSplit depth ts)
element_tokens-IsSplit depth (start_token s ∷ ts) =
    IsSplit-cons (start_token s) ts (element_tokens (suc depth) ts)
      (element_tokens-IsSplit (suc depth) ts)
element_tokens-IsSplit depth (char_data s ∷ ts) =
    IsSplit-cons (char_data s) ts (element_tokens depth ts) (element_tokens-IsSplit depth ts)
element_tokens-IsSplit depth (noise ∷ ts) =
    IsSplit-cons noise ts (element_tokens depth ts) (element_tokens-IsSplit depth ts)

module _ {A : Type 0} where
  all_read-Consumes :
      (ts rest own : List Token) (r : Result (A × List Token))
      → length rest < length ts
      → Consumes own r
      → Consumes ts (r >>= all_read rest)
  unfolding Consumes
  all_read-Consumes ts rest own (ok (a, [])) h k = h
  all_read-Consumes ts rest own (ok (a, t ∷ us)) h k = text_error-IsRefusal _
  all_read-Consumes ts rest own (err e) h k = k

  cut_off-Consumes :
      (ts : List Token) (r : Result (A × List Token)) → Consumes ts r → Consumes ts (r >>= cut_off)
  unfolding Consumes
  cut_off-Consumes ts (ok p) k = text_error-IsRefusal _
  cut_off-Consumes ts (err e) k = k

  decode_own-Consumes :
      (unmarshal : StartElement → Decode A) (se : StartElement) (fault : Fault) (ts : List Token)
      (o : Option (List Token × List Token))
      → IsSplit ts o
      → ((fault : Fault) (us : List Token) → Consumes us (unmarshal se fault us))
      → Consumes ts (decode_own unmarshal se fault ts o)
  unfolding IsSplit
  decode_own-Consumes unmarshal se fault ts none h k = cut_off-Consumes ts _ (k fault ts)
  decode_own-Consumes unmarshal se fault ts (some p) h k =
      all_read-Consumes ts p.1 p.0 _ (omega (arith, h.0, h.1)) (k eof p.0)

  -- A method that consumes is no longer than its element.
  pub decode_element-Consumes :
      (unmarshal : StartElement → Decode A) (se : StartElement)
      → ((fault : Fault) (us : List Token) → Consumes us (unmarshal se fault us))
      → (fault : Fault) (ts : List Token) → Consumes ts (decode_element unmarshal se fault ts)
  unfolding decode_element
  decode_element-Consumes unmarshal se k fault ts =
      decode_own-Consumes unmarshal se fault ts (element_tokens 0 ts) (element_tokens-IsSplit 0 ts)
        k

  pub ok-IsRefusal : (a : A) (e : GoError) → ok a ≡ err e → IsRefusal e
  ok-IsRefusal a e q = ground arith

  made-Consumes :
      (ts rest : List Token) (r : Result A)
      → length rest < length ts
      → ((e : GoError) → r ≡ err e → IsRefusal e)
      → Consumes ts (r >>= λ a. ok (a, rest))
  unfolding Consumes
  made-Consumes ts rest (ok a) h k = h
  made-Consumes ts rest (err e) h k = k e refl

  made_of-Consumes :
      (make : List Token → Result A) (fault : Fault) (ts : List Token)
      (o : Option (List Token × List Token))
      → IsSplit ts o
      → ((own : List Token) (e : GoError) → make own ≡ err e → IsRefusal e)
      → Consumes ts (made_of make fault o)
  unfolding IsSplit Consumes
  made_of-Consumes make fault ts none h k = fault_error-IsRefusal fault
  made_of-Consumes make fault ts (some p) h k =
      made-Consumes ts p.1 (make p.0) (omega (arith, h.0, h.1)) (k p.0)

  pub decode_made-Consumes :
      (make : List Token → Result A)
      → ((own : List Token) (e : GoError) → make own ≡ err e → IsRefusal e)
      → (fault : Fault) (ts : List Token) → Consumes ts (decode_made make fault ts)
  unfolding decode_made
  decode_made-Consumes make k fault ts =
      made_of-Consumes make fault ts (element_tokens 0 ts) (element_tokens-IsSplit 0 ts) k

pub decode_text-Consumes :
    (se : StartElement) (fault : Fault) (ts : List Token) → Consumes ts (decode_text se fault ts)
unfolding decode_text
decode_text-Consumes se =
    decode_made-Consumes (λ own. ok (text_content 0 own))
      (λ own e q. ok-IsRefusal (text_content 0 own) e q)
