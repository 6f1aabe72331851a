-- ===== src/Auth/Scram/Exchange.antt =====
-- auth.go: authScram, the exchange of the four SCRAM messages.
use go_xmpp.Text.{GoString, has_prefix, is_empty, str}
use go_xmpp.Text.Decimal.{atoi}
use go_xmpp.Result.{Result, err, ok}
use go_xmpp.Auth.Fields.{parse_scram_fields}
use go_xmpp.Transport.Io.{Io, lift, next_packet, ◌>>=◌, ◌>>◌}
use go_xmpp.Auth.Scram.{
  Crypto, Hash, as_permanent, check_hash, field, iterations, permanent, read_sasl_challenge,
  scram_escape, scram_nonce, scram_reply, send_sasl_auth, send_sasl_response, xor_bytes,
}
use go_xmpp.Prelude.{Assoc, Bool, List, Option, String, false, not, true, ℕ, ◌++◌, ◌||◌, ◌∷◌}

-- What the client keeps of the server's first message.
pub record ServerFirst : Type 0 where
  pub nonce : GoString
  pub salt : GoString
  pub iter : ℕ

abbrev reject : Bool → String → Result (Unit {0})
reject true m = err (permanent m)
reject false m = ok tt

module _ (c : Crypto) (h : Hash) where
  module _ (mechanisms : List GoString) (bindings : Option (List GoString)) where
    -- The tests on the fields of the server's first message, in their order.
    unfoldable pub check_first : GoString → Assoc GoString GoString → Result ServerFirst
    unfolding permanent check_hash
    check_first client_nonce fields =
        elim (reject
          (is_empty (field (str "r") fields)
            || not (has_prefix (field (str "r") fields) client_nonce))
          "scram: server nonce missing or invalid") [
            | err e ↦ err e
            | ok _ ↦
                elim (reject (not (is_empty (field (str "m") fields)))
                  "scram: server sent reserved m attribute") [
                    | err e ↦ err e
                    | ok _ ↦
                        elim (reject (is_empty (field (str "s") fields))
                          "scram: server salt missing") [
                            | err e ↦ err e
                            | ok _ ↦ elim (c.decode64 (field (str "s") fields)) [
                              | err e ↦ err e
                              | ok salt ↦ elim (iterations (atoi (field (str "i") fields))) [
                                | err e ↦ err e
                                | ok iter ↦
                                    elim (check_hash c h (field (str "h") fields) mechanisms
                                      bindings) [
                                        | err e ↦ err e
                                        | ok _ ↦ ok (record {
                                          nonce = field (str "r") fields;
                                          salt = salt;
                                          iter = iter;
                                        })
                                      ]
                              ]
                            ]
                          ]
                  ]
          ]

    -- From the text of the challenge to those fields.
    unfoldable pub read_first : GoString → GoString → Result (GoString × ServerFirst)
    unfolding check_first as_permanent
    read_first client_nonce text_in = elim (c.decode64 text_in) [
      | err e ↦ err e
      | ok server_first ↦ elim (as_permanent (parse_scram_fields server_first)) [
        | err e ↦ err e
        | ok fields ↦ elim (check_first client_nonce fields) [
          | err e ↦ err e
          | ok first ↦ ok (server_first, first)
        ]
      ]
    ]

  -- clientFinalWithoutProof
  unfoldable pub without_proof : ServerFirst → GoString
  without_proof first = str "c=" ++ c.encode64 (str "y,,") ++ str ",r=" ++ first.nonce

  unfoldable pub salted_password : GoString → ServerFirst → GoString
  salted_password secret first = c.pbkdf2 h secret first.salt first.iter

  unfoldable pub client_proof : GoString → GoString → GoString
  client_proof salted auth_message =
      let client_key = c.hmac h salted (str "Client Key") in
      xor_bytes client_key (c.hmac h (c.sum h client_key) auth_message)

  -- expectedVerifier: what a server that knows the password answers.
  unfoldable pub expected_verifier : GoString → GoString → GoString
  expected_verifier salted auth_message =
      c.encode64 (c.hmac h (c.hmac h salted (str "Server Key")) auth_message)

  unfoldable pub auth_message : GoString → GoString → ServerFirst → GoString
  unfolding without_proof
  auth_message client_first_bare server_first first =
      client_first_bare ++ b',' ∷ (server_first ++ b',' ∷ without_proof first)

  -- The second half of authScram: the proof is sent, and the reply read.
  unfoldable pub finish : GoString → GoString → GoString × ServerFirst → Io (Unit {0})
  finish client_first_bare secret (server_first, first) = do
    let salted = salted_password secret first
    let message = auth_message client_first_bare server_first first
    send_sasl_response c
        (without_proof first ++ str ",p=" ++ c.encode64 (client_proof salted message))
    val ← next_packet
    lift (scram_reply c (expected_verifier salted message) val)

  module _ (mech : GoString) (mechanisms : List GoString) (bindings : Option (List GoString)) where
    -- clientFirstBare
    unfoldable pub first_bare : GoString → GoString → GoString
    first_bare user client_nonce = str "n=" ++ scram_escape user ++ str ",r=" ++ client_nonce

    unfoldable pub auth_scram : GoString → GoString → Io (Unit {0})
    unfolding scram_nonce first_bare
    auth_scram user secret = do
      client_nonce ← lift (scram_nonce c)
      send_sasl_auth c mech (str "y,," ++ first_bare user client_nonce)
      text_in ← read_sasl_challenge
      first ← lift (read_first mechanisms bindings client_nonce text_in)
      finish (first_bare user client_nonce) secret first
