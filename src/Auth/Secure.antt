-- ===== src/Auth/Secure.antt =====
-- Authentication does not change whether the connection is secured.
use go_xmpp.Text.{GoString}
use go_xmpp.Transport.Io.{Io, lift, next_packet, write_some, ◌>>=◌, ◌>>◌}
use go_xmpp.Transport.Io.Keeps.{
  KeepsSecure, bind-KeepsSecure, lift-KeepsSecure, next_packet-KeepsSecure, read-secure,
  write_some-KeepsSecure,
}
use go_xmpp.Stanza.Packet.{Packet, StreamFeatures, types}
use go_xmpp.Auth.{Credential, auth_plain, auth_sasl, matching_mech}
use go_xmpp.Auth.Scram.{
  Crypto, Hash, read_sasl_challenge, send_sasl_auth, send_sasl_response, sha1, sha256, sha512,
}
use go_xmpp.Result.{Result}
use go_xmpp.Auth.Scram.Exchange.{ServerFirst, auth_scram, finish}
use go_xmpp.Prelude.{List, Option, arith, refl}

-- A text that is computed, then written.
sent-KeepsSecure : (z : GoString) (r : Result GoString) → KeepsSecure (lift r >>= write_some z)
sent-KeepsSecure z r =
    bind-KeepsSecure (lift r) (write_some z) (lift-KeepsSecure r) (write_some-KeepsSecure z)

read_sasl_challenge-KeepsSecure : KeepsSecure read_sasl_challenge
unfolding read_sasl_challenge
read_sasl_challenge-KeepsSecure t = read-secure t

-- A step whose result is not used, before another.
step-KeepsSecure {ℓ} :
    {B : Type ℓ} (m : Io (Unit {0})) (k : Io B)
    → KeepsSecure m
    → KeepsSecure k
    → KeepsSecure (m >> k)
step-KeepsSecure m k keeps each = bind-KeepsSecure m (λ u. k) keeps (λ u. each)

-- The packet that is read and judged.
judged-KeepsSecure :
    (f : Packet → Result (Unit {0})) → KeepsSecure (next_packet >>= λ p. lift (f p))
judged-KeepsSecure f =
    bind-KeepsSecure next_packet (λ p. lift (f p)) next_packet-KeepsSecure
      (λ p. lift-KeepsSecure (f p))

module _ (c : Crypto) where
  auth_plain-KeepsSecure :
      (mech user secret : GoString) → KeepsSecure (auth_plain c mech user secret)
  unfolding auth_plain
  auth_plain-KeepsSecure mech user secret =
      bind-KeepsSecure _ _ (λ t. refl)
        (λ out. step-KeepsSecure _ _ (write_some-KeepsSecure _ out) (judged-KeepsSecure _))

  finish-KeepsSecure :
      (h : Hash) (bare secret : GoString) (first : GoString × ServerFirst)
      → KeepsSecure (finish c h bare secret first)
  unfolding finish send_sasl_response
  finish-KeepsSecure h bare secret (text, first) =
      step-KeepsSecure _ _ (sent-KeepsSecure _ _) (judged-KeepsSecure _)

  auth_scram-KeepsSecure :
      (h : Hash) (mech : GoString) (mechanisms : List GoString) (bindings : Option (List GoString))
      (user secret : GoString)
      → KeepsSecure (auth_scram c h mech mechanisms bindings user secret)
  unfolding auth_scram send_sasl_auth
  auth_scram-KeepsSecure h mech mechanisms bindings user secret =
      bind-KeepsSecure _ _ (λ t. refl)
        (λ nonce. step-KeepsSecure _ _ (sent-KeepsSecure _ _) (
          bind-KeepsSecure _ _ read_sasl_challenge-KeepsSecure (λ text.
            bind-KeepsSecure _ _ (λ t. refl) (λ first. finish-KeepsSecure h _ secret first))))

  pub auth_sasl-KeepsSecure :
      (f : StreamFeatures) (user : GoString) (credential : Credential)
      → KeepsSecure (auth_sasl c f user credential)
  unfolding auth_sasl
  auth_sasl-KeepsSecure f user credential t =
      let mech = matching_mech credential.mechanisms f.mechanism in
      let scram : (h : Hash)
          → KeepsSecure (
              auth_scram c h mech f.mechanism (types f.sasl_channel_binding) user
                credential.secret) =
        λ h.
          auth_scram-KeepsSecure h mech f.mechanism (types f.sasl_channel_binding) user
            credential.secret in
      ground (
        arith,
        scram sha512 t,
        scram sha256 t,
        scram sha1 t,
        auth_plain-KeepsSecure mech user credential.secret t,
      )
