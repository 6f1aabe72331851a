-- ===== src/Auth/Choice.antt =====
-- Which mechanism is used, and what reaches the server before it is chosen.
use mathlib.Core.Path.{subst}
use go_xmpp.Transport.{Transport}
use go_xmpp.Text.{GoString, str, text_eq, text_eq_instance}
use go_xmpp.Result.{conn_error, err, new_conn_error, text_error}
use go_xmpp.Stanza.Packet.{StreamFeatures}
use go_xmpp.Auth.Scram.{Crypto}
use go_xmpp.Auth.{Credential, auth_sasl, is_supported_mech, matching_mech, password}
use go_xmpp.Prelude.{
  All, Bool-cases, List, [], ap, arith, false, inl, inr, nat_eq, refl, sym, true, ◌++◌, ◌∷◌, ◌≡◌,
  ◌≢◌, ◌⊎◌,
}

-- The first of the client's mechanisms, in its order of preference, that the server offers.
abbrev pub IsPreferred : List GoString → List GoString → GoString → Type 0
IsPreferred mechs supported mech =
    (before : List GoString) × (after : List GoString) × (mechs ≡ before ++ mech ∷ after)
    × (is_supported_mech mech supported ≡ true)
    × All (λ m. is_supported_mech m supported ≡ false) before

matching_yes :
    (m : GoString) (mechs supported : List GoString)
    → is_supported_mech m supported ≡ true
    → matching_mech (m ∷ mechs) supported ≡ m
unfolding matching_mech
matching_yes m mechs supported h = rw h

matching_no :
    (m : GoString) (mechs supported : List GoString)
    → is_supported_mech m supported ≡ false
    → matching_mech (m ∷ mechs) supported ≡ matching_mech mechs supported
unfolding matching_mech
matching_no m mechs supported h = rw h

abbrev Chosen : List GoString → List GoString → GoString → Type 0
Chosen mechs supported mech =
    IsPreferred mechs supported mech
    ⊎ ((mech ≡ []) × All (λ m. is_supported_mech m supported ≡ false) mechs)

cons-Chosen :
    (m : GoString) (mechs supported : List GoString) (mech : GoString)
    → is_supported_mech m supported ≡ false
    → Chosen mechs supported mech
    → Chosen (m ∷ mechs) supported mech
cons-Chosen m mechs supported mech h (inl (before, after, e, s, n)) =
    inl (m ∷ before, after, ap (λ l. m ∷ l) e, s, (h, n))
cons-Chosen m mechs supported mech h (inr (e, n)) = inr (e, (h, n))

-- The loop of authSASL takes the client's most preferred mechanism among those that the server
-- offers, or leaves the name empty, and then the server offers none of the client's.
pub matching_mech_lem :
    (mechs supported : List GoString)
    → IsPreferred mechs supported (matching_mech mechs supported)
      ⊎ ((matching_mech mechs supported ≡ [])
          × All (λ m. is_supported_mech m supported ≡ false) mechs)
matching_mech_lem [] supported = inr (unfold matching_mech in refl, tt)
matching_mech_lem (m ∷ mechs) supported = elim (Bool-cases (is_supported_mech m supported)) [
  | inl h ↦
      subst (Chosen (m ∷ mechs) supported) (sym (matching_yes m mechs supported h))
        (inl ([], mechs, refl, h, tt))
  | inr h ↦
      subst (Chosen (m ∷ mechs) supported) (sym (matching_no m mechs supported h))
        (cons-Chosen m mechs supported _ h (matching_mech_lem mechs supported))
]

none_matching :
    (mechs supported : List GoString)
    → All (λ m. is_supported_mech m supported ≡ false) mechs
    → matching_mech mechs supported ≡ []
unfolding matching_mech
none_matching [] supported h = refl
none_matching (m ∷ mechs) supported h = ground (arith, none_matching mechs supported h.1)

-- If the server offers no mechanism of the client's, authSASL fails with a permanent error, and
-- neither reads nor writes anything: the secret is not sent.
pub auth_sasl-none :
    (c : Crypto) (f : StreamFeatures) (user : GoString) (credential : Credential) (t : Transport)
    → All (λ m. is_supported_mech m f.mechanism ≡ false) credential.mechanisms
    → auth_sasl c f user credential t ≡ (
      err (conn_error (text_error (str "no matching authentication supported by server")) true),
      t,
    )
unfolding auth_sasl text_eq str new_conn_error
auth_sasl-none c f user credential t h = rw (none_matching credential.mechanisms f.mechanism h)

ne512 : str "SCRAM-SHA-512" ≢ str "PLAIN"
unfolding str
ne512 e = ground arith

ne256 : str "SCRAM-SHA-256" ≢ str "PLAIN"
unfolding str
ne256 e = ground arith

ne1 : str "SCRAM-SHA-1" ≢ str "PLAIN"
unfolding str
ne1 e = ground arith

-- The mechanisms of Password: PLAIN, which shows the secret to the server, is used only if the
-- server offers none of the SCRAM mechanisms.
pub password-plain :
    (pwd : GoString) (supported : List GoString)
    → matching_mech (password pwd).mechanisms supported ≡ str "PLAIN"
    → (is_supported_mech (str "SCRAM-SHA-512") supported ≡ false)
      × (is_supported_mech (str "SCRAM-SHA-256") supported ≡ false)
      × (is_supported_mech (str "SCRAM-SHA-1") supported ≡ false)
unfolding password matching_mech
password-plain pwd supported h = ground (arith, ne512, ne256, ne1)
