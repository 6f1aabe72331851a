-- ===== src/Stanza/Parser.antt =====
-- stanza/parser.go: the next packet of a stream, and the opening of a stream.
pub mod Nonza
pub mod Progress
pub mod Termination
pub mod Laws
pub mod Kinds
pub mod Refusals
pub mod Nested
pub mod Messages
pub mod Iqs
use go_xmpp.Text.{GoString, str, text_eq_instance}
use go_xmpp.Result.{GoError, Result, err, ok, text_error, ◌>>=◌}
use go_xmpp.Stanza.Packet.{
  Packet, XmlName, handshake, iq, message, presence, sasl_failure, sasl_success, stream_close,
  stream_error, stream_features, types,
}
use go_xmpp.Stanza.Xml.{
  Decode, Fault, StartElement, Token, decode_element, end_token, eof, fault_error, last_attr,
  name_eq_instance, start_token, syntax_fault,
}
use go_xmpp.Stanza.Message.{unmarshal_message}
use go_xmpp.Stanza.Presence.{unmarshal_presence}
use go_xmpp.Stanza.IqXml.{unmarshal_iq}
use go_xmpp.Stanza.Extensions.{Types}
use go_xmpp.Stanza.Parser.Nonza.{as_packet, decode_nonza, decode_packet, unexpected}
use go_xmpp.Prelude.{[], if◌then◌else◌, nat_eq, not, ◌&&◌, ◌++◌, ◌==◌, ◌∷◌}

abbrev pub ns_stream : GoString
ns_stream = str "http://etherx.jabber.org/streams"

abbrev pub ns_framing : GoString
ns_framing = str "urn:ietf:params:xml:ns:xmpp-framing"

abbrev pub ns_sasl : GoString
ns_sasl = str "urn:ietf:params:xml:ns:xmpp-sasl"

abbrev pub ns_client : GoString
ns_client = str "jabber:client"

abbrev pub ns_component : GoString
ns_component = str "jabber:component:accept"

abbrev pub ns_stream_management : GoString
ns_stream_management = str "urn:xmpp:sm:3"

abbrev pub stream_name : XmlName
stream_name = record { space = ns_stream; local = str "stream" }

abbrev pub open_name : XmlName
open_name = record { space = ns_framing; local = str "open" }

abbrev pub not_opened : XmlName → GoError
not_opened n =
    text_error
      (str "xmpp: expected <stream> or <open> but got <" ++ (n.local ++ (str "> in " ++ n.space)))

abbrev pub opened_by : StartElement → Result GoString
opened_by se =
    if not (se.name == stream_name) && not (se.name == open_name)
    then err (not_opened se.name)
    else ok (last_attr (str "id") se.attr [])

-- InitStream: the id of the stream, from the first start tag.
unfoldable pub init_stream : Decode GoString
unfolding last_attr
init_stream fault [] = err (fault_error fault)
init_stream fault (start_token se ∷ ts) = opened_by se >>= λ id. ok (id, ts)
init_stream fault (_ ∷ ts) = init_stream fault ts

-- The error of NextXmppToken and NextStart for the error of a token.
abbrev pub next_fault : Fault → GoError
next_fault eof = text_error (str "connection closed")
next_fault (syntax_fault m) = text_error (str "NextStart " ++ m)

-- NextXmppToken: a start tag, or the end tag of the stream.
unfoldable pub next_xmpp_token : Decode Token
next_xmpp_token fault [] = err (next_fault fault)
next_xmpp_token fault (start_token se ∷ ts) = ok (start_token se, ts)
next_xmpp_token fault (end_token n ∷ ts) =
    let rest = next_xmpp_token fault ts in if n == stream_name then ok (end_token n, ts) else rest
next_xmpp_token fault (_ ∷ ts) = next_xmpp_token fault ts

unfoldable pub next_start : Decode StartElement
next_start fault [] = err (next_fault fault)
next_start fault (start_token se ∷ ts) = ok (se, ts)
next_start fault (_ ∷ ts) = next_start fault ts

abbrev pub unknown_namespace : XmlName → GoError
unknown_namespace n =
    text_error (str "unknown namespace " ++ (n.space ++ (str " <" ++ (n.local ++ str "/>"))))

module _ (types : Types) where
  unfoldable pub decode_stream_start : StartElement → Decode Packet
  decode_stream_start se fault ts =
      if se.name.local == str "error"
      then decode_packet stream_error (types.make_stream_error se) fault ts
      else if se.name.local == str "features"
      then decode_packet stream_features (types.make_stream_features se) fault ts
      else err (unexpected se.name)

  -- decodeStream; the end tag was read already.
  unfoldable pub decode_stream_end : XmlName → Decode Packet
  decode_stream_end n fault ts =
      if n.local == str "stream" then ok (stream_close, ts) else err (unexpected n)

  unfoldable pub decode_sasl : StartElement → Decode Packet
  decode_sasl se fault ts =
      if se.name.local == str "success"
      then decode_packet sasl_success (types.make_sasl_success se) fault ts
      else if se.name.local == str "failure"
      then decode_packet sasl_failure (types.make_sasl_failure se) fault ts
      else err (unexpected se.name)

  unfoldable pub decode_client : StartElement → Decode Packet
  unfolding decode_element unmarshal_message unmarshal_presence unmarshal_iq
  decode_client se fault ts =
      if se.name.local == str "message"
      then as_packet message (decode_element (unmarshal_message types) se fault ts)
      else if se.name.local == str "presence"
      then as_packet presence (decode_element (unmarshal_presence types) se fault ts)
      else if se.name.local == str "iq"
      then as_packet iq (decode_element (unmarshal_iq types) se fault ts)
      else err (unexpected se.name)

  unfoldable pub decode_component : StartElement → Decode Packet
  unfolding decode_element unmarshal_message unmarshal_presence unmarshal_iq
  decode_component se fault ts =
      if se.name.local == str "handshake"
      then decode_packet handshake (types.make_handshake se) fault ts
      else if se.name.local == str "message"
      then as_packet message (decode_element (unmarshal_message types) se fault ts)
      else if se.name.local == str "presence"
      then as_packet presence (decode_element (unmarshal_presence types) se fault ts)
      else if se.name.local == str "iq"
      then as_packet iq (decode_element (unmarshal_iq types) se fault ts)
      else err (unexpected se.name)

  -- The switch of NextPacket on a start tag.
  unfoldable pub decode_start : StartElement → Decode Packet
  unfolding decode_stream_start decode_sasl decode_client decode_component decode_nonza
  decode_start se fault ts =
      if se.name.space == ns_stream
      then decode_stream_start se fault ts
      else if se.name.space == ns_sasl
      then decode_sasl se fault ts
      else if se.name.space == ns_client
      then decode_client se fault ts
      else if se.name.space == ns_component
      then decode_component se fault ts
      else if se.name.space == ns_stream_management
      then decode_nonza se fault ts
      else err (unknown_namespace se.name)

  abbrev pub decode_token : Token → Decode Packet
  decode_token (end_token n) = decode_stream_end n
  decode_token (start_token se) = decode_start se
  decode_token _ = λ fault ts. err (text_error (str "unknown token "))

  -- NextPacket
  unfoldable pub next_packet : Decode Packet
  unfolding next_xmpp_token decode_start decode_stream_end
  next_packet fault ts = next_xmpp_token fault ts >>= λ p. decode_token p.0 fault p.1
