-- ===== src/Auth.antt =====
-- auth.go: SASL authentication, the choice of a mechanism, PLAIN and SCRAM.
pub mod Fields
pub mod Downgrade
pub mod Scram
pub mod Secure
pub mod Choice
use go_xmpp.Auth.Scram.Exchange.{auth_scram}
use go_xmpp.Text.{GoString, str, text_eq_instance}
use go_xmpp.Result.{Result, err, new_conn_error, ok, text_error}
use go_xmpp.Stanza.Packet.{Packet, StreamFeatures, name, sasl_failure, sasl_success, types}
use go_xmpp.Transport.Io.{Io, lift, next_packet, raise, write_some, ◌>>=◌, ◌>>◌}
use go_xmpp.Auth.Scram.{Crypto, sha1, sha256, sha512}
use go_xmpp.Prelude.{Bool, List, [], false, if◌then◌else◌, nat_eq, true, ◌++◌, ◌==◌, ◌||◌, ◌∷◌}

pub record Credential : Type 0 where
  pub secret : GoString
  pub mechanisms : List GoString

unfoldable pub password : GoString → Credential
password pwd = record {
  secret = pwd;
  mechanisms = str "SCRAM-SHA-512" ∷ str "SCRAM-SHA-256" ∷ str "SCRAM-SHA-1" ∷ str "PLAIN" ∷ [];
}

unfoldable pub oauth_token : GoString → Credential
oauth_token token = record { secret = token; mechanisms = str "X-OAUTH2" ∷ [] }

-- isSupportedMech
unfoldable pub is_supported_mech : GoString → List GoString → Bool
is_supported_mech mech [] = false
is_supported_mech mech (m ∷ mechanisms) = mech == m || is_supported_mech mech mechanisms

-- The loop of authSASL: the first mechanism of the credential that the server supports, "" if none.
unfoldable pub matching_mech : List GoString → List GoString → GoString
matching_mech [] supported = []
matching_mech (mech ∷ mechs) supported =
    if is_supported_mech mech supported then mech else matching_mech mechs supported

-- What authPlain makes of the reply.
plain_reply : Packet → Result (Unit {0})
plain_reply (sasl_success v) = ok tt
plain_reply (sasl_failure any) =
    err (new_conn_error (text_error (str "auth failure: " ++ any.local)) true)
plain_reply p = err (text_error (str "expected SASL success or failure, got " ++ name p))

module _ (c : Crypto) where
  unfoldable pub auth_plain : GoString → GoString → GoString → Io (Unit {0})
  unfolding plain_reply
  auth_plain mech user secret = do
    let raw = 0 ∷ user ++ 0 ∷ secret
    data_out ← lift (c.marshal_auth mech (c.encode64 raw))
    write_some (str "failed to write authSASL nonza to socket : wrote 0 bytes") data_out
    val ← next_packet
    lift (plain_reply val)

  by_mechanism : GoString → StreamFeatures → GoString → GoString → Io (Unit {0})
  by_mechanism mech f user secret =
      let bindings = types f.sasl_channel_binding in
      if mech == str "SCRAM-SHA-512"
      then auth_scram c sha512 mech f.mechanism bindings user secret
      else if mech == str "SCRAM-SHA-256"
      then auth_scram c sha256 mech f.mechanism bindings user secret
      else if mech == str "SCRAM-SHA-1"
      then auth_scram c sha1 mech f.mechanism bindings user secret
      else if mech == str "PLAIN" || mech == str "X-OAUTH2"
      then auth_plain mech user secret
      else raise
          (new_conn_error (text_error (str "no matching authentication supported by server")) true)

  unfoldable pub auth_sasl : StreamFeatures → GoString → Credential → Io (Unit {0})
  unfolding by_mechanism
  auth_sasl f user credential =
      by_mechanism (matching_mech credential.mechanisms f.mechanism) f user credential.secret
