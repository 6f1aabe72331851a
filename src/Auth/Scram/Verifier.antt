-- ===== src/Auth/Scram/Verifier.antt =====
-- What the second half of authScram has checked when it ends without an error.
use go_xmpp.Text.{GoString, str}
use go_xmpp.Result.{Result-cases, ok}
use go_xmpp.Stanza.Packet.{Packet, sasl_success}
use go_xmpp.Transport.{Transport}
use go_xmpp.Transport.Io.{next_packet, ◌>>=◌}
use go_xmpp.Auth.Fields.{parse_scram_fields}
use go_xmpp.Auth.Scram.{Crypto, Hash, field, send_sasl_response, xor_bytes}
use go_xmpp.Auth.Scram.Laws.{scram_reply_ok}
use go_xmpp.Auth.Scram.Exchange.{
  ServerFirst, auth_message, client_proof, expected_verifier, finish, salted_password,
  without_proof,
}
use go_xmpp.Prelude.{Assoc, [], arith, inl, inr, ◌++◌, ◌∷◌, ◌≡◌, ◌⊎◌}

-- The message of RFC 5802 that both sides sign.
abbrev pub signed_message : Crypto → GoString → GoString → ServerFirst → GoString
signed_message c client_first_bare server_first first =
    client_first_bare
    ++ b','
      ∷ (server_first ++ b',' ∷ (str "c=" ++ c.encode64 (str "y,,") ++ str ",r=" ++ first.nonce))

-- The signature of the server of RFC 5802, in base64, of a message.
abbrev pub server_signature : Crypto → Hash → GoString → ServerFirst → GoString → GoString
server_signature c h secret first signed =
    c.encode64
      (c.hmac h (c.hmac h (c.pbkdf2 h secret first.salt first.iter) (str "Server Key")) signed)

-- The proof of the client of RFC 5802 for a message.
abbrev pub proof_of_client : Crypto → Hash → GoString → ServerFirst → GoString → GoString
proof_of_client c h secret first signed =
    let key = c.hmac h (c.pbkdf2 h secret first.salt first.iter) (str "Client Key") in
    xor_bytes key (c.hmac h (c.sum h key) signed)

-- The response of the client with its proof.
abbrev pub final_response : Crypto → Hash → GoString → ServerFirst → GoString → GoString
final_response c h secret first signed =
    (str "c=" ++ c.encode64 (str "y,,") ++ str ",r=" ++ first.nonce)
    ++ str ",p="
    ++ c.encode64 (proof_of_client c h secret first signed)

-- The message of a success of the server has the signature, and no error.
abbrev pub IsProof : Crypto → GoString → GoString → Type 0
IsProof c signature v =
    (final : GoString) × (fields : Assoc GoString GoString) × (c.decode64 v ≡ ok final)
    × (parse_scram_fields final ≡ ok fields)
    × (field (str "e") fields ≡ [])
    × (field (str "v") fields ≡ signature)

module _ (c : Crypto) (h : Hash) where
  -- If the second half of authScram ends without an error, then the response with the client's proof
  -- was sent without an error, and the packet that was read after it is an empty success, or a
  -- success whose message parses, reports no error, and holds the server's signature of RFC 5802 made
  -- from the password, the salt, the iteration count and the messages of this exchange.
  pub finish_ok :
      (client_first_bare secret server_first : GoString) (first : ServerFirst) (t : Transport)
      → (finish c h client_first_bare secret (server_first, first) t).0 ≡ ok tt
      → ((send_sasl_response c
            (final_response c h secret first
              (signed_message c client_first_bare server_first first))
            t).0
          ≡ ok tt)
        × ((p : Packet) × ((next_packet
                (send_sasl_response c
                  (final_response c h secret first
                    (signed_message c client_first_bare server_first first))
                  t).1).0
              ≡ ok p)
            × ((p ≡ sasl_success [])
                ⊎ ((v : GoString) × (p ≡ sasl_success v)
                    × IsProof c
                        (server_signature c h secret first
                          (signed_message c client_first_bare server_first first))
                        v)))
  unfolding finish salted_password auth_message without_proof expected_verifier client_proof ◌>>=◌
  finish_ok client_first_bare secret server_first first t e =
      let signed = signed_message c client_first_bare server_first first in
      let sent = send_sasl_response c (final_response c h secret first signed) t in
      elim (Result-cases sent.0) [
        | inr (er, q) ↦ absurd (ground (arith, q, e))
        | inl (u, q) ↦ elim (Result-cases (next_packet sent.1).0) [
          | inr (er, r) ↦ absurd (ground (arith, q, r, e))
          | inl (p, r) ↦ (
            q,
            (
              p,
              r,
              elim (scram_reply_ok c (server_signature c h secret first signed) p
                  (ground (arith, q, r, e))) [
                    | inl empty ↦ inl empty
                    | inr (v, final, fields, same, d, f, x, y) ↦
                        inr (v, same, (final, fields, d, f, x, y))
                  ],
            ),
          )
        ]
      ]
