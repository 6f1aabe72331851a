-- ===== src/Tests/Addresses.antt =====
-- Addresses, IQs, the registry and the choice of a host.
use go_xmpp.Text.{contains_func, is_space}
use go_xmpp.Stanza.Packet.{XmlName}
use go_xmpp.Client.Setup.{Srv}
use go_xmpp.Stanza.Jid.{Jid, full, is_domain_valid, is_invalid, is_username_valid, new_jid}
use go_xmpp.Stanza.Jid.RoundTrip.{new_jid-full}
use go_xmpp.Stanza.Registry.{Registry, new_registry}
use go_xmpp.Prelude.{[], arith, inl, none, refl, ℕ, ◌∷◌, ◌≡◌}

abbrev empty_registry : Registry ℕ
empty_registry = new_registry

abbrev seven : ℕ
seven = 7

abbrev main_host : Srv
main_host = record { target = b'm' ∷ []; port = 1; priority = 0; weight = 5 }

abbrev spare_host : Srv
spare_host = record { target = b's' ∷ []; port = 1; priority = 0; weight = 9 }

abbrev balcony : Jid
balcony = record { node = b'j' ∷ []; domain = b'd' ∷ []; resource = b'r' ∷ [] }

abbrev a_name : XmlName
a_name = record { space = b'n' ∷ []; local = b't' ∷ [] }

new_jid-full_example : new_jid (full balcony) ≡ (balcony, none)
unfolding is_username_valid is_domain_valid contains_func is_invalid is_space
new_jid-full_example =
    new_jid-full balcony (record { node_valid = refl; domain_valid = refl })
      (inl (λ e. absurd (ground (arith, e))))
