-- ===== src/Stanza/Extensions.antt =====
-- The getters of stanza/registry.go, and what the packets are decoded with. The types that programs
-- register, and what encoding/xml makes of the fields of a struct by reflection, are parameters.
use go_xmpp.Text.{GoString}
use go_xmpp.Result.{GoError, Result, err}
use go_xmpp.Stanza.Packet.{Extension, IqPayload, StreamError, StreamFeatures, XmlName}
use go_xmpp.Stanza.Registry.{
  PacketType, Registry, get_extension_type, pkt_iq, pkt_message, pkt_presence,
}
use go_xmpp.Stanza.Xml.{StartElement, Token}
use go_xmpp.Stanza.Xml.Consumes.{IsRefusal}
use go_xmpp.Prelude.{Bool, List, Option, if◌then◌else◌, none, some, ◌≡◌}

-- `registry` is TypeRegistry with the names of the types; `implements` is the type assertion on a new
-- value of a type. What decodes a value is given the start tag and the tokens of the element.
pub record Types : Type 0 where
  pub registry : Registry GoString
  pub implements : PacketType → GoString → Bool
  pub make_extension : GoString → StartElement → List Token → Result Extension
  pub make_payload : GoString → StartElement → List Token → Result IqPayload
  pub make_stream_error : StartElement → List Token → Result StreamError
  pub make_stream_features : StartElement → List Token → Result StreamFeatures
  pub make_sasl_success : StartElement → List Token → Result GoString
  pub make_sasl_failure : StartElement → List Token → Result XmlName
  pub make_handshake : StartElement → List Token → Result GoString

-- Decoding by reflection returns errors, and does not panic.
abbrev pub ReturnsErrors : {A : Type 0} → (StartElement → List Token → Result A) → Type 0
ReturnsErrors make =
    (se : StartElement) (own : List Token) (e : GoError) → make se own ≡ err e → IsRefusal e

module _ (types : Types) where
  get_extension : PacketType → XmlName → Option GoString
  unfolding get_extension_type
  get_extension p n = elim (get_extension_type p n types.registry) [
    | none ↦ none
    | some t ↦ if types.implements p t then some t else none
  ]

  unfoldable pub get_pres_extension : XmlName → Option GoString
  unfolding get_extension
  get_pres_extension = get_extension pkt_presence

  unfoldable pub get_msg_extension : XmlName → Option GoString
  unfolding get_extension
  get_msg_extension = get_extension pkt_message

  unfoldable pub get_iq_extension : XmlName → Option GoString
  unfolding get_extension
  get_iq_extension = get_extension pkt_iq
