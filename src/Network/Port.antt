-- ===== src/Network/Port.antt =====
-- An address that ensurePort has seen has a port.
use mathlib.Core.Path.{subst}
use go_xmpp.Text.{GoString, Lacks, count, has_prefix, last_index_1}
use go_xmpp.Text.Decimal.{digits, itoa}
use go_xmpp.Network.{by_colons, ensure_port}
use go_xmpp.Prelude.{
  All, Bool-cases, [], ap, append_assoc, arith, inl, inr, leb, length, ltb, nat_beq, nat_beq_iff,
  refl, suc, sym, zero, ℕ, ◌%◌, ◌++◌, ◌+◌, ◌/◌, ◌<◌, ◌∙◌, ◌∷◌, ◌≡◌, ◌≢◌, ◌≤◌,
}

digits-digits :
    (P : ℕ → Type 0)
    → ((d : ℕ) → d < 10 → P (b'0' + d))
    → (f n : ℕ) (out : GoString) → All P out
    → All P (digits f n out)
unfolding digits
digits-digits P all zero n out h = h
digits-digits P all (suc f) n out h = elim (Bool-cases (ltb n 10)) [
  | inl e ↦ rw e (all (n % 10) (omega arith), h)
  | inr e ↦
      rw e (digits-digits P all f (n / 10) ((b'0' + n % 10) ∷ out) (all (n % 10) (omega arith), h))
]

itoa-Lacks : (b n : ℕ) → b'9' < b → Lacks b (itoa n)
unfolding itoa
itoa-Lacks b n h = digits-digits (λ c. c ≢ b) (λ d lt. omega arith) (suc n) n [] tt

last-Lacks : (b : ℕ) (s : GoString) → Lacks b s → last_index_1 b s ≡ 0
unfolding last_index_1
last-Lacks b [] h = refl
last-Lacks b (c ∷ s) h = ground (arith, last-Lacks b s h.1)

-- Behind the last separator.
last-append : (b : ℕ) (p s : GoString) → Lacks b s → last_index_1 b (p ++ b ∷ s) ≡ length p + 1
unfolding last_index_1
last-append b [] s h = ground (arith, last-Lacks b s h)
last-append b (c ∷ p) s h = ground (arith, last-append b p s h)

last-append_other : (b : ℕ) (p s : GoString) → Lacks b s → last_index_1 b (p ++ s) ≤ length p
unfolding last_index_1
last-append_other b [] s h = omega (arith, last-Lacks b s h)
last-append_other b (c ∷ p) s h = ground (arith, last-append_other b p s h)

count-Lacks : (b : ℕ) (s : GoString) → Lacks b s → count b s ≡ 0
unfolding count
count-Lacks b [] h = refl
count-Lacks b (c ∷ s) h = ground (arith, count-Lacks b s h.1)

count-append : (b : ℕ) (p s : GoString) → count b (p ++ s) ≡ count b p + count b s
unfolding count
count-append b [] s = omega arith
count-append b (c ∷ p) s = ground (arith, count-append b p s)

-- An address in brackets with a port is left alone.
bracketed :
    (p : GoString) (port : ℕ) (q : ℕ)
    → ensure_port ((b'[' ∷ p) ++ b':' ∷ itoa port) q ≡ (b'[' ∷ p) ++ b':' ∷ itoa port
unfolding ensure_port has_prefix
bracketed p port q = ground (
  arith,
  last-append b':' (b'[' ∷ p) (itoa port) (itoa-Lacks b':' port (omega arith)),
  last-append_other b']' (b'[' ∷ p) (b':' ∷ itoa port)
      ((λ e. omega arith), itoa-Lacks b']' port (omega arith)),
)

plain :
    (c : ℕ) (s : GoString) (q : ℕ)
    → c ≢ b'['
    → ensure_port (c ∷ s) q ≡ by_colons (c ∷ s) q (count b':' (c ∷ s))
unfolding ensure_port has_prefix
plain c s q h = ground arith

no_colon :
    (c : ℕ) (s : GoString) (port q : ℕ)
    → c ≢ b'['
    → count b':' (c ∷ s) ≡ 0
    → ensure_port ((c ∷ s) ++ b':' ∷ itoa port) q ≡ (c ∷ s) ++ b':' ∷ itoa port
unfolding by_colons
no_colon c s port q h e =
    let one : count b':' ((c ∷ s) ++ b':' ∷ itoa port) ≡ 1 =
      count-append b':' (c ∷ s) (b':' ∷ itoa port)
      ∙ unfold count in
        ground (arith, e, count-Lacks b':' (itoa port) (itoa-Lacks b':' port (omega arith))) in
    plain c (s ++ b':' ∷ itoa port) q h ∙ ap (by_colons ((c ∷ s) ++ b':' ∷ itoa port) q) one

idem_colons :
    (c : ℕ) (s : GoString) (port q n : ℕ)
    → c ≢ b'['
    → count b':' (c ∷ s) ≡ n
    → ensure_port (by_colons (c ∷ s) port n) q ≡ by_colons (c ∷ s) port n
unfolding by_colons
idem_colons c s port q zero h e = no_colon c s port q h e
idem_colons c s port q (suc zero) h e = plain c s q h ∙ ap (by_colons (c ∷ s) q) e
idem_colons c s port q (suc (suc n)) h e =
    subst (λ t. ensure_port t q ≡ t) (append_assoc (b'[' ∷ c ∷ s) (b']' ∷ []) (b':' ∷ itoa port))
      (bracketed ((c ∷ s) ++ b']' ∷ []) port q)

idem_bracket :
    (s : GoString) (port q : ℕ)
    → ensure_port (ensure_port (b'[' ∷ s) port) q ≡ ensure_port (b'[' ∷ s) port
idem_bracket s port q =
    elim (Bool-cases (leb (last_index_1 b':' (b'[' ∷ s)) (last_index_1 b']' (b'[' ∷ s)))) [
      | inl k ↦
          let step : ensure_port (b'[' ∷ s) port ≡ (b'[' ∷ s) ++ b':' ∷ itoa port =
            unfold ensure_port has_prefix in ground (arith, k) in
          rw step (bracketed s port q)
      | inr k ↦
          let step : (p : ℕ) → ensure_port (b'[' ∷ s) p ≡ b'[' ∷ s =
            λ p. unfold ensure_port has_prefix in ground (arith, k) in
          rw (step port) (step q)
    ]

-- Adding a port to an address that ensurePort has completed changes nothing, whichever port is given:
-- the result always has one.
pub ensure_port_idem :
    (addr : GoString) (port q : ℕ) → ensure_port (ensure_port addr port) q ≡ ensure_port addr port
ensure_port_idem [] port q =
    unfold ensure_port has_prefix count in
    ground (arith, count-Lacks b':' (itoa port) (itoa-Lacks b':' port (omega arith)))
ensure_port_idem (c ∷ s) port q = elim (Bool-cases (nat_beq c b'[')) [
  | inr e ↦
      let ne : c ≢ b'[' = λ k. ground (arith, e, k) in
      rw (plain c s port ne) (idem_colons c s port q _ ne refl)
  | inl e ↦
      subst (λ k. ensure_port (ensure_port (k ∷ s) port) q ≡ ensure_port (k ∷ s) port)
        (sym ((nat_beq_iff c b'[').0 e)) (idem_bracket s port q)
]
