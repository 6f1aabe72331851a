-- ===== src/Auth/Scram.antt =====
-- auth.go: authScram and its helpers. What the standard library and pbkdf2 compute is a parameter.
pub mod Exchange
pub mod Laws
pub mod Verifier
use Prim.Native.Nat.{bit_xor}
use go_xmpp.Text.{GoString, is_empty, str, text_eq_instance}
use go_xmpp.Text.Decimal.{Parsed, minus, plus, syntax}
use go_xmpp.Result.{GoError, Result, conn_error, err, new_conn_error, ok, text_error}
use go_xmpp.Stanza.Packet.{Packet, name, sasl_failure, sasl_success}
use go_xmpp.Transport.{Incoming, broken, challenge, element, read}
use go_xmpp.Transport.Io.{Io, lift, write_some, ◌>>=◌, ◌>>◌}
use go_xmpp.Auth.Fields.{parse_scram_fields}
use go_xmpp.Auth.Downgrade.{scram_downgrade_string}
use go_xmpp.Prelude.{
  Assoc, List, Option, String, [], if◌then◌else◌, length, lookup, ltb, nat_beq, nat_eq, none, not,
  some, true, ℕ, ◌++◌, ◌==◌, ◌∷◌,
}

-- The hash constructor `h`.
pub data Hash : Type 0 where
  sha512 sha256 sha1 : Hash

-- Code that is not in this repository: the random bytes, base64, the hashes, HMAC and PBKDF2 over
-- them, and encoding/xml's text for the two SASL elements. Bytes are numbers in a list.
pub record Crypto : Type 0 where
  pub random : Result GoString
  pub encode64 : GoString → GoString
  pub decode64 : GoString → Result GoString
  pub sum : Hash → GoString → GoString
  pub hmac : Hash → GoString → GoString → GoString
  pub pbkdf2 : Hash → GoString → GoString → ℕ → GoString
  pub marshal_auth : GoString → GoString → Result GoString
  pub marshal_response : GoString → Result GoString

abbrev pub iteration_count_minimum : ℕ
iteration_count_minimum = 4096

-- scramEscape: "=" and "," are replaced in one pass.
unfoldable pub scram_escape : GoString → GoString
scram_escape [] = []
scram_escape (c ∷ s) =
    let rest = scram_escape s in
    if nat_beq c b'='
    then b'=' ∷ b'3' ∷ b'D' ∷ rest
    else if nat_beq c b','
    then b'=' ∷ b'2' ∷ b'C' ∷ rest
    else c ∷ rest

xor_all : GoString → GoString → GoString
xor_all [] right = []
xor_all (l ∷ left) [] = []
xor_all (l ∷ left) (r ∷ right) = bit_xor l r ∷ xor_all left right

-- xorBytes: nil, which is the empty list, if the lengths differ.
unfoldable pub xor_bytes : GoString → GoString → GoString
unfolding xor_all
xor_bytes left right = if nat_beq (length left) (length right) then xor_all left right else []

-- A field of a map of strings, "" if it is missing.
unfoldable pub field : GoString → Assoc GoString GoString → GoString
field k fields = elim (lookup k fields) [ none ↦ [] | some v ↦ v ]

permanent : String → GoError
permanent m = conn_error (text_error (str m)) true

as_permanent {ℓ} : {A : Type ℓ} → Result A → Result A
as_permanent (ok a) = ok a
as_permanent (err e) = err (new_conn_error e true)

-- The iteration count: a number that is large enough.
unfoldable pub iterations : Parsed → Result ℕ
unfolding permanent
iterations syntax = err (permanent "scram: invalid iteration count")
iterations (minus n) = err (permanent "scram: weak iteration count")
iterations (plus n) =
    if ltb n iteration_count_minimum then err (permanent "scram: weak iteration count") else ok n

challenge_text : Incoming → Result GoString
challenge_text (challenge text) = ok text
challenge_text (element (sasl_failure any)) =
    err (new_conn_error (text_error (str "auth failure: " ++ any.local)) true)
challenge_text (element (sasl_success v)) =
    err (text_error (str "unexpected SASL success without challenge"))
challenge_text (broken e) = err e
challenge_text _ = err (text_error (str "expected SASL challenge"))

-- readSASLChallenge
unfoldable pub read_sasl_challenge : Io GoString
unfolding challenge_text read
read_sasl_challenge t = let (i, t') = read t in (challenge_text i, t')

module _ (c : Crypto) where
  -- scramNonce
  scram_nonce : Result GoString
  scram_nonce = elim c.random [ ok buf ↦ ok (c.encode64 buf) | err e ↦ err e ]

  -- sendSASLAuth and sendSASLResponse
  unfoldable pub send_sasl_auth : GoString → GoString → Io (Unit {0})
  send_sasl_auth mech payload = do
    data_out ← lift (c.marshal_auth mech (c.encode64 payload))
    write_some (str "failed to write SASL auth nonza to socket : wrote 0 bytes") data_out

  unfoldable pub send_sasl_response : GoString → Io (Unit {0})
  send_sasl_response payload = do
    data_out ← lift (c.marshal_response (c.encode64 payload))
    write_some (str "failed to write SASL response nonza to socket : wrote 0 bytes") data_out

  -- verifySCRAMDowngradeHash, called if the server sent a hash
  unfoldable pub verify_downgrade_hash :
      Hash → GoString → List GoString → Option (List GoString) → Result (Unit {0})
  verify_downgrade_hash h server_hash mechanisms bindings =
      elim (scram_downgrade_string mechanisms bindings) [
        | err e ↦ err e
        | ok text ↦
            if server_hash == c.encode64 (c.sum h text)
            then ok tt
            else err (text_error (str "scram: mismatch in SASL SCRAM downgrade protection"))
      ]

  check_hash : Hash → GoString → List GoString → Option (List GoString) → Result (Unit {0})
  unfolding as_permanent
  check_hash h [] mechanisms bindings = ok tt
  check_hash h (x ∷ server_hash) mechanisms bindings =
      as_permanent (verify_downgrade_hash h (x ∷ server_hash) mechanisms bindings)

  -- What the server has to prove: the fields of its final message, if it sent one.
  check_final : GoString → Assoc GoString GoString → Result (Unit {0})
  unfolding permanent
  check_final expected fields =
      if not (is_empty (field (str "e") fields))
      then err (conn_error (text_error (str "scram auth failure: " ++ field (str "e") fields)) true)
      else if is_empty (field (str "v") fields)
      then err (permanent "scram: missing server verifier")
      else if field (str "v") fields == expected
      then ok tt
      else err (permanent "scram: server verifier mismatch")

  unfoldable pub scram_reply : GoString → Packet → Result (Unit {0})
  unfolding check_final as_permanent
  scram_reply expected (sasl_success []) = ok tt
  scram_reply expected (sasl_success (x ∷ v)) = elim (c.decode64 (x ∷ v)) [
    | err e ↦ err e
    | ok final ↦ elim (as_permanent (parse_scram_fields final)) [
      | err e ↦ err e
      | ok fields ↦ check_final expected fields
    ]
  ]
  scram_reply expected (sasl_failure any) =
      err (new_conn_error (text_error (str "auth failure: " ++ any.local)) true)
  scram_reply expected p = err (text_error (str "expected SASL success or failure, got " ++ name p))
