-- ===== src/Tests/Sasl.antt =====
-- Authentication.
use go_xmpp.Text.{GoString, has_prefix, str, text_eq, text_eq_instance}
use go_xmpp.Result.{ok}
use go_xmpp.Stanza.Packet.{Packet, sasl_success}
use go_xmpp.Tests.Fixtures.{tcp, toy_crypto}
use go_xmpp.Transport.{element}
use go_xmpp.Text.Split.{join, split, split_2}
use go_xmpp.Text.Decimal.{atoi, plus}
use go_xmpp.Auth.Fields.{parse_scram_fields}
use go_xmpp.Auth.Fields.RoundTrip.{Attributes, parse_scram_fields-join, spell}
use go_xmpp.Auth.Downgrade.{
  is_valid_binding, is_valid_mechanism, scram_downgrade_string, sort_strings, text_le,
}
use go_xmpp.Auth.Downgrade.Order.{downgrade_perm}
use go_xmpp.Auth.Downgrade.Injective.{SameBindings, downgrade_injective}
use go_xmpp.Auth.Scram.{
  field, iteration_count_minimum, iterations, scram_reply, send_sasl_response, sha1,
}
use go_xmpp.Auth.Scram.Exchange.{
  ServerFirst, expected_verifier, finish, read_first, salted_password, without_proof,
}
use go_xmpp.Auth.Scram.Laws.{IsHashOfOffer, read_first_sound}
use go_xmpp.Auth.Scram.Verifier.{
  IsProof, final_response, finish_ok, server_signature, signed_message,
}
use go_xmpp.Transport.Io.{next_packet, write_some, ◌>>=◌}
use mathlib.Core.List.{Permᴰ}
use go_xmpp.Prelude.{
  Assoc, List, [], arith, insert, lookup, nat_eq, none, refl, remove, some, true, ◌∷◌, ◌≡◌, ◌≤◌,
  ◌⊎◌,
}

abbrev no_scram : List GoString
no_scram = (b'P' ∷ b'L' ∷ b'A' ∷ b'I' ∷ b'N' ∷ []) ∷ []

abbrev two_fields : Attributes
two_fields = (b'r' ∷ [], b'n' ∷ []) ∷ (b's' ∷ [], b'x' ∷ []) ∷ []

abbrev server_first : GoString
server_first = str "r=nn,s=x,i=4096"

abbrev first : ServerFirst
first = record { nonce = b'n' ∷ b'n' ∷ []; salt = b'x' ∷ []; iter = 4096 }

abbrev verifier : GoString
verifier = str "v=s"

abbrev mech_a : GoString
mech_a = b'A' ∷ []

abbrev mech_b : GoString
mech_b = b'B' ∷ []

abbrev binding_a : GoString
binding_a = b'a' ∷ []

read_first_sound_example :
    (toy_crypto.decode64 server_first ≡ ok server_first)
    × ((fields : Assoc GoString GoString) × (parse_scram_fields server_first ≡ ok fields)
        × (field (str "r") fields ≡ first.nonce)
        × (has_prefix first.nonce (b'n' ∷ []) ≡ true)
        × (field (str "m") fields ≡ [])
        × (toy_crypto.decode64 (field (str "s") fields) ≡ ok first.salt)
        × (atoi (field (str "i") fields) ≡ plus first.iter)
        × (iteration_count_minimum ≤ first.iter)
        × ((field (str "h") fields ≡ [])
            ⊎ IsHashOfOffer toy_crypto sha1 (field (str "h") fields) no_scram none))
unfolding read_first str parse_scram_fields lookup text_eq field has_prefix atoi iterations split
    split_2 insert remove
read_first_sound_example =
    read_first_sound toy_crypto sha1 no_scram none (b'n' ∷ []) server_first server_first first refl

finish_ok_example :
    ((send_sasl_response toy_crypto
        (final_response toy_crypto sha1
          (b's' ∷ [])
          first
          (signed_message toy_crypto (b'n' ∷ []) server_first first))
        (tcp (element (sasl_success verifier) ∷ []))).0
      ≡ ok tt)
    × ((p : Packet) × ((next_packet
            (send_sasl_response toy_crypto
              (final_response toy_crypto sha1
                (b's' ∷ [])
                first
                (signed_message toy_crypto (b'n' ∷ []) server_first first))
              (tcp (element (sasl_success verifier) ∷ []))).1).0
          ≡ ok p)
        × ((p ≡ sasl_success [])
            ⊎ ((v : GoString) × (p ≡ sasl_success v)
                × IsProof toy_crypto
                    (server_signature toy_crypto sha1
                      (b's' ∷ [])
                      first
                      (signed_message toy_crypto (b'n' ∷ []) server_first first))
                    v)))
unfolding finish ◌>>=◌ scram_reply str parse_scram_fields lookup text_eq field split split_2 insert
    remove salted_password expected_verifier without_proof send_sasl_response write_some next_packet
finish_ok_example =
    finish_ok toy_crypto sha1 (b'n' ∷ []) (b's' ∷ []) server_first first
      (tcp (element (sasl_success verifier) ∷ [])) refl

downgrade_injective_example :
    Permᴰ (mech_a ∷ mech_b ∷ []) (mech_b ∷ mech_a ∷ [])
    × SameBindings (some (binding_a ∷ [])) (some (binding_a ∷ []))
unfolding scram_downgrade_string sort_strings is_valid_mechanism is_valid_binding join text_le
downgrade_injective_example =
    downgrade_injective (mech_a ∷ mech_b ∷ []) (mech_b ∷ mech_a ∷ []) (some (binding_a ∷ []))
      (some (binding_a ∷ [])) (b'A' ∷ 0x1e ∷ b'B' ∷ 0x1f ∷ b'a' ∷ []) refl refl

downgrade_perm_example :
    scram_downgrade_string (mech_a ∷ mech_b ∷ []) (some (binding_a ∷ []))
    ≡ scram_downgrade_string (mech_b ∷ mech_a ∷ []) (some (binding_a ∷ []))
unfolding is_valid_mechanism is_valid_binding
downgrade_perm_example =
    downgrade_perm (mech_a ∷ mech_b ∷ []) (mech_b ∷ mech_a ∷ []) (binding_a ∷ []) (binding_a ∷ [])
      (Permᴰ.swap refl refl) (Permᴰ.cons refl Permᴰ.nil) (refl, (refl, tt)) (refl, tt)

parse_scram_fields-join_example :
    (m : Attributes) × (parse_scram_fields (join b',' (spell two_fields)) ≡ ok m)
    × ((k : GoString) → lookup k m ≡ lookup k two_fields)
unfolding lookup text_eq
parse_scram_fields-join_example =
    parse_scram_fields-join two_fields (λ e. absurd (ground (arith, e))) (ground arith)
