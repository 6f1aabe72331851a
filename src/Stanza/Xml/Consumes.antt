-- ===== src/Stanza/Xml/Consumes.antt =====
-- What a reader of tokens leaves: less than it was given, and never a run that was cut off.
use go_xmpp.Text.{GoString, text_eq_instance}
use go_xmpp.Result.{GoError, Result, err, ok, panic, text_error, ◌>>=◌}
use go_xmpp.Stanza.Xml.{
  Decode, Fault, StartElement, Token, char_data, end_token, eof, fault_error, name_eq_instance,
  noise, start_token, syntax_fault,
}
use go_xmpp.Stanza.Packet.{XmlName}
use go_xmpp.Prelude.{
  Bool, List, [], arith, false, if◌then◌else◌, length, nat_eq, suc, true, zero, ℕ, ◌<◌, ◌==◌, ◌∷◌,
  ◌≢◌, ◌≤◌,
}
use go_xmpp.Stanza.Xml.Loop.{read_children, rounds}

abbrev pub IsRefusal : GoError → Type 0
IsRefusal e = e ≢ panic

-- A result that leaves fewer tokens than there were, or a refusal.
unfoldable pub Consumes {ℓ} : {A : Type ℓ} → List Token → Result (A × List Token) → Type 0
Consumes ts (ok p) = length p.1 < length ts
Consumes ts (err e) = IsRefusal e

-- The same, where nothing need be read.
unfoldable pub NotLonger {ℓ} : {A : Type ℓ} → List Token → Result (A × List Token) → Type 0
NotLonger ts (ok p) = length p.1 ≤ length ts
NotLonger ts (err e) = IsRefusal e

pub text_error-IsRefusal : (m : GoString) → IsRefusal (text_error m)
text_error-IsRefusal m q = ground arith

pub fault_error-IsRefusal : (fault : Fault) → IsRefusal (fault_error fault)
fault_error-IsRefusal eof = text_error-IsRefusal _
fault_error-IsRefusal (syntax_fault m) = text_error-IsRefusal m

Consumes-within :
    {B : Type 0} (t : Token) (ts us : List Token) (r : Result (B × List Token))
    → length us ≤ length ts
    → Consumes us r
    → Consumes (t ∷ ts) r
unfolding Consumes
Consumes-within t ts us (ok p) h k = omega arith
Consumes-within t ts us (err e) h k = k

module _ {A : Type 0} where
  pub Consumes-if :
      (ts : List Token) (b : Bool) (r s : Result (A × List Token))
      → Consumes ts r
      → Consumes ts s
      → Consumes ts (if b then r else s)
  Consumes-if ts true r s h k = h
  Consumes-if ts false r s h k = k

  pub Consumes-later :
      (t : Token) (ts : List Token) (r : Result (A × List Token))
      → Consumes ts r
      → Consumes (t ∷ ts) r
  unfolding Consumes
  Consumes-later t ts (ok p) h = omega arith
  Consumes-later t ts (err e) h = h

  pub Consumes-NotLonger :
      (ts : List Token) (r : Result (A × List Token)) → Consumes ts r → NotLonger ts r
  unfolding Consumes NotLonger
  Consumes-NotLonger ts (ok p) h = omega arith
  Consumes-NotLonger ts (err e) h = h

  -- A reader that consumes, and then another that does.
  pub Consumes-then :
      {B : Type 0} (t : Token) (ts : List Token) (r : Result (A × List Token))
      (next : A × List Token → Result (B × List Token))
      → NotLonger ts r
      → ((p : A × List Token) → length p.1 ≤ length ts → Consumes p.1 (next p))
      → Consumes (t ∷ ts) (r >>= next)
  unfolding Consumes NotLonger
  Consumes-then t ts (err e) next h k = h
  Consumes-then t ts (ok p) next h k = Consumes-within t ts p.1 (next p) h (k p h)

within :
    {B : Type 0} (ts us : List Token) (r : Result (B × List Token))
    → length us < length ts
    → NotLonger us r
    → Consumes ts r
unfolding Consumes NotLonger
within ts us (ok p) h k = omega arith
within ts us (err e) h k = k

module _ {A B : Type 0} where
  pub Consumes-bind :
      (ts : List Token) (r : Result (A × List Token))
      (next : A × List Token → Result (B × List Token))
      → Consumes ts r
      → ((p : A × List Token) → NotLonger p.1 (next p))
      → Consumes ts (r >>= next)
  unfolding Consumes
  Consumes-bind ts (ok p) next h k = within ts p.1 (next p) h (k p)
  Consumes-bind ts (err e) next h k = h

-- The loop of the UnmarshalXML methods, when the switch reads on or not, and never runs out itself: one
-- token is enough fuel for one round.
module _ {S : Type 0} (child : StartElement → S → Decode S) (own : XmlName)
    (child-NotLonger : (se : StartElement) (s : S) (fault : Fault) (ts : List Token)
      → NotLonger ts (child se s fault ts)) where
  pub rounds-Consumes :
      (f : ℕ) (s : S) (fault : Fault) (ts : List Token)
      → length ts < f
      → Consumes ts (rounds child own f s fault ts)
  unfolding rounds Consumes
  rounds-Consumes zero s fault ts h = absurd (omega arith)
  rounds-Consumes (suc f) s fault [] h = fault_error-IsRefusal fault
  rounds-Consumes (suc f) s fault (start_token t ∷ ts) h =
      Consumes-then (start_token t) ts _ _ (child-NotLonger t s fault ts)
        (λ p k. rounds-Consumes f p.0 fault p.1 (omega arith))
  rounds-Consumes (suc f) s fault (end_token n ∷ ts) h =
      Consumes-if (end_token n ∷ ts) (n == own) _ _ (omega arith)
        (Consumes-later (end_token n) ts _ (rounds-Consumes f s fault ts (omega arith)))
  rounds-Consumes (suc f) s fault (char_data c ∷ ts) h =
      Consumes-later (char_data c) ts _ (rounds-Consumes f s fault ts (omega arith))
  rounds-Consumes (suc f) s fault (noise ∷ ts) h =
      Consumes-later noise ts _ (rounds-Consumes f s fault ts (omega arith))

  pub read_children-Consumes :
      (s : S) (fault : Fault) (ts : List Token) → Consumes ts (read_children child own s fault ts)
  unfolding read_children
  read_children-Consumes s fault ts = rounds-Consumes (suc (length ts)) s fault ts (omega arith)
