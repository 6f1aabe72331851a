-- ===== src/Auth/Scram/Laws.antt =====
-- What a successful SCRAM authentication has checked.
use go_xmpp.Text.{GoString, has_prefix, str, text_eq_iff}
use go_xmpp.Text.Decimal.{Parsed, atoi, minus, plus, syntax}
use go_xmpp.Result.{Result-cases, ok}
use go_xmpp.Stanza.Packet.{Packet, sasl_success}
use go_xmpp.Auth.Fields.{parse_scram_fields}
use go_xmpp.Auth.Downgrade.{scram_downgrade_string}
use go_xmpp.Auth.Scram.{
  Crypto, Hash, check_hash, field, iteration_count_minimum, iterations, scram_reply,
  verify_downgrade_hash,
}
use go_xmpp.Auth.Scram.Exchange.{ServerFirst, check_first, read_first}
use go_xmpp.Prelude.{
  Assoc, List, Option, [], ap, arith, inl, inr, refl, sym, true, ℕ, ◌∙◌, ◌∷◌, ◌≡◌, ◌≤◌, ◌⊎◌,
}

iterations_sound :
    (p : Parsed) (n : ℕ) → iterations p ≡ ok n → (p ≡ plus n) × (iteration_count_minimum ≤ n)
unfolding iterations
iterations_sound syntax n e = cc
iterations_sound (plus m) n e = ground arith
iterations_sound (minus m) n e = cc

-- The text in base64 of the hash of the names that the server offered.
abbrev pub IsHashOfOffer :
    Crypto → Hash → GoString → List GoString → Option (List GoString) → Type 0
IsHashOfOffer c h server_hash mechanisms bindings =
    (offer : GoString) × (scram_downgrade_string mechanisms bindings ≡ ok offer)
    × (server_hash ≡ c.encode64 (c.sum h offer))

verify_downgrade_hash_sound :
    (c : Crypto) (h : Hash) (server_hash : GoString) (mechanisms : List GoString)
    (bindings : Option (List GoString))
    → verify_downgrade_hash c h server_hash mechanisms bindings ≡ ok tt
    → IsHashOfOffer c h server_hash mechanisms bindings
unfolding verify_downgrade_hash
verify_downgrade_hash_sound c h server_hash mechanisms bindings e =
    elim (Result-cases (scram_downgrade_string mechanisms bindings)) [
      | inr (er, q) ↦ absurd (ground (arith, q, e))
      | inl (offer, q) ↦
          (offer, q, ground (arith, q, e, text_eq_iff server_hash (c.encode64 (c.sum h offer))))
    ]

check_hash_sound :
    (c : Crypto) (h : Hash) (server_hash : GoString) (mechanisms : List GoString)
    (bindings : Option (List GoString))
    → check_hash c h server_hash mechanisms bindings ≡ ok tt
    → (server_hash ≡ []) ⊎ IsHashOfOffer c h server_hash mechanisms bindings
unfolding check_hash
check_hash_sound c h [] mechanisms bindings e = inl refl
check_hash_sound c h (x ∷ s) mechanisms bindings e =
    inr (elim (Result-cases (verify_downgrade_hash c h (x ∷ s) mechanisms bindings)) [
      | inl (u, q) ↦ verify_downgrade_hash_sound c h (x ∷ s) mechanisms bindings q
      | inr (er, q) ↦ absurd (ground (arith, q))
    ])

module _ (c : Crypto) (h : Hash) (mechanisms : List GoString)
    (bindings : Option (List GoString)) where
  check_first_sound :
      (client_nonce : GoString) (fields : Assoc GoString GoString) (first : ServerFirst)
      → check_first c h mechanisms bindings client_nonce fields ≡ ok first
      → (field (str "r") fields ≡ first.nonce)
        × (has_prefix first.nonce client_nonce ≡ true)
        × (field (str "m") fields ≡ [])
        × (c.decode64 (field (str "s") fields) ≡ ok first.salt)
        × (iterations (atoi (field (str "i") fields)) ≡ ok first.iter)
        × (check_hash c h (field (str "h") fields) mechanisms bindings ≡ ok tt)
  unfolding check_first
  check_first_sound client_nonce fields first e =
      elim (Result-cases (c.decode64 (field (str "s") fields))) [
        | inr (er, q) ↦ absurd (ground (arith, q))
        | inl (salt, q) ↦ elim (Result-cases (iterations (atoi (field (str "i") fields)))) [
          | inr (er, r) ↦ absurd (ground (arith, q, r))
          | inl (iter, r) ↦
              elim (Result-cases (check_hash c h (field (str "h") fields) mechanisms bindings)) [
                | inr (er, k) ↦ absurd (ground (arith, q, r, k))
                | inl (u, k) ↦ ground (arith, q, r, k)
              ]
        ]
      ]

  -- If the server's first message is accepted, its nonce extends the client's, the iteration count
  -- is a decimal number of at least 4096, the salt is what the field "s" encodes, the field "m" is
  -- missing or empty, and the field "h", unless it is missing or empty, is the hash in base64 of the
  -- downgrade text of what the server offered.
  pub read_first_sound :
      (client_nonce text_in server_first : GoString) (first : ServerFirst)
      → read_first c h mechanisms bindings client_nonce text_in ≡ ok (server_first, first)
      → (c.decode64 text_in ≡ ok server_first)
        × ((fields : Assoc GoString GoString) × (parse_scram_fields server_first ≡ ok fields)
            × (field (str "r") fields ≡ first.nonce)
            × (has_prefix first.nonce client_nonce ≡ true)
            × (field (str "m") fields ≡ [])
            × (c.decode64 (field (str "s") fields) ≡ ok first.salt)
            × (atoi (field (str "i") fields) ≡ plus first.iter)
            × (iteration_count_minimum ≤ first.iter)
            × ((field (str "h") fields ≡ [])
                ⊎ IsHashOfOffer c h (field (str "h") fields) mechanisms bindings))
  unfolding read_first
  read_first_sound client_nonce text_in server_first first e =
      elim (Result-cases (c.decode64 text_in)) [
        | inr (er, q) ↦ absurd (ground (arith, q))
        | inl (text, q) ↦ elim (Result-cases (parse_scram_fields text)) [
          | inr (er, r) ↦ absurd (ground (arith, q, r))
          | inl (fields, r) ↦
              elim (Result-cases (check_first c h mechanisms bindings client_nonce fields)) [
                | inr (er, k) ↦ absurd (ground (arith, q, r, k))
                | inl (f, k) ↦
                    let same : (text ≡ server_first) × (f ≡ first) =
                      (ground (arith, q, r, k), ground (arith, q, r, k)) in
                    let (nonce, prefix, m, salt, it, hash) =
                      check_first_sound client_nonce fields first (k ∙ ap ok same.1) in
                    let (parsed, enough) = iterations_sound _ _ it in
                    (
                      q ∙ ap ok same.0,
                      (
                        fields,
                        ap parse_scram_fields (sym same.0) ∙ r,
                        nonce,
                        prefix,
                        m,
                        salt,
                        parsed,
                        enough,
                        check_hash_sound c h _ mechanisms bindings hash,
                      ),
                    )
              ]
        ]
      ]

module _ (c : Crypto) where
  pub scram_reply_ok :
      (expected : GoString) (p : Packet)
      → scram_reply c expected p ≡ ok tt
      → (p ≡ sasl_success [])
        ⊎ ((v : GoString) × (final : GoString) × (fields : Assoc GoString GoString) × (p
              ≡ sasl_success v)
            × (c.decode64 v ≡ ok final)
            × (parse_scram_fields final ≡ ok fields)
            × (field (str "e") fields ≡ [])
            × (field (str "v") fields ≡ expected))
  unfolding scram_reply
  scram_reply_ok expected (sasl_success []) e = inl refl
  scram_reply_ok expected (sasl_success (x ∷ v)) e = elim (Result-cases (c.decode64 (x ∷ v))) [
    | inr (er, q) ↦ absurd (ground (arith, q))
    | inl (final, q) ↦ elim (Result-cases (parse_scram_fields final)) [
      | inr (er, r) ↦ absurd (ground (arith, q, r))
      | inl (fields, r) ↦ inr (
        x ∷ v,
        final,
        fields,
        refl,
        q,
        r,
        ground (arith, q, r),
        ground (arith, q, r, text_eq_iff (field (str "v") fields) expected),
      )
    ]
  ]
  scram_reply_ok expected _ e = cc
