-- ===== src/Tests/Parsing.antt =====
-- Packets out of tokens.
use go_xmpp.Text.{GoString, is_empty, str, text_eq, text_eq_instance}
use go_xmpp.Result.{GoError, err, ok, panic}
use go_xmpp.Stanza.Packet.{
  Attribute, Err, Node, Packet, iq, message, name, next_node, no_err, no_nodes, node, sm_failed,
  sm_request, stream_close,
}
use go_xmpp.Tests.Fixtures.{toy_types, toy_types-TypesReturnErrors}
use go_xmpp.Stanza.History.{
  History, TimeLayout, history_name, history_start, marshal_history, new_nullable_int, no_history,
  no_int, unmarshal_history,
}
use go_xmpp.Stanza.History.RoundTrip.{unmarshal-marshal_history}
use go_xmpp.Stanza.Xml.{
  StartElement, Token, decode_made, element_tokens, end_token, eof, name_eq_instance, noise,
  start_token,
}
use go_xmpp.Stanza.Node.{node_body, start_of, unmarshal_node, written_start}
use go_xmpp.Stanza.Node.RoundTrip.{IsPlain, height, unmarshal-marshal_node}
use go_xmpp.Stanza.Error.{err_body, err_start, stanza_errors, unmarshal_err}
use go_xmpp.Stanza.Error.RoundTrip.{unmarshal-marshal_err}
use go_xmpp.Stanza.Extensions.{get_iq_extension, get_msg_extension}
use go_xmpp.Stanza.Message.{new_message, read_attrs}
use go_xmpp.Stanza.Message.Fields.{TextElement, elements_of, with_fields}
use go_xmpp.Stanza.Parser.{decode_start, next_fault, next_packet, stream_name}
use go_xmpp.Stanza.Parser.Nonza.{decode_nonza, decode_packet}
use go_xmpp.Stanza.Parser.Termination.{PacketRun, packets_end}
use go_xmpp.Stanza.Parser.Laws.{IsBetween, next_packet-skips}
use go_xmpp.Stanza.Parser.Kinds.{Known, decode_start-Known, known_elements}
use go_xmpp.Stanza.Parser.Refusals.{failed_tag, is_read, next_packet-failed, unknown_condition}
use go_xmpp.Stanza.Parser.Messages.{message_tag, next_packet-message}
use go_xmpp.Stanza.Parser.Iqs.{
  IqPart, IsPart, error_part, iq_tag, next_packet-iq, node_part, parts_tokens, with_parts,
}
use go_xmpp.Stanza.IqXml.{iq_start}
use go_xmpp.Prelude.{
  List, [], arith, if◌then◌else◌, inl, inr, lookup, nat_eq, pos, refl, some, ◌++◌, ◌∷◌, ◌≡◌, ◌≢◌,
  ◌⊎◌,
}

-- Times as they are written; the zero time is the empty text.
abbrev text_layout : TimeLayout GoString
text_layout = record {
  parse = λ s. ok s;
  format = λ s. s;
  zero_time = [];
  is_zero = λ s. is_empty s;
}

abbrev ten_stanzas : History GoString
ten_stanzas = record {
  xml_name = history_name;
  max_chars = no_int;
  max_stanzas = new_nullable_int (pos 10);
  seconds = no_int;
  since = b'1' ∷ [];
}

abbrev from_juliet : List Attribute
from_juliet = record { name = record { space = []; local = str "from" }; value = b'j' ∷ [] } ∷ []

abbrev hello : List TextElement
hello =
    record { tag = record { space = str "jabber:client"; local = str "body" }; text = b'h' ∷ [] }
    ∷ []

abbrev bad_request : Err
bad_request = record { code = pos 400; kind = str "modify"; reason = str "bad-request"; text = [] }

abbrev two_levels : Node
two_levels =
    node (record { space = b'n' ∷ []; local = b'a' ∷ [] }) [] (b't' ∷ [])
      (next_node (node (record { space = b'n' ∷ []; local = b'b' ∷ [] }) [] [] no_nodes) no_nodes)

abbrev answer : List IqPart
answer = error_part bad_request ∷ node_part two_levels ∷ []

abbrev request_tag : StartElement
request_tag = record { name = record { space = str "urn:xmpp:sm:3"; local = str "r" }; attr = [] }

abbrev carbon : StartElement
carbon = record {
  name = record { space = str "urn:xmpp:carbons:2"; local = str "received" };
  attr = [];
}

abbrev forwarded : StartElement
forwarded = record {
  name = record { space = str "urn:xmpp:forward:0"; local = str "forwarded" };
  attr = [];
}

-- The condition of XEP-0198 for a session that can not be resumed.
abbrev item_not_found : StartElement
item_not_found = record {
  name = record { space = stanza_errors; local = str "item-not-found" };
  attr = [];
}

next_packet-message_example :
    next_packet toy_types eof (
      start_token (message_tag from_juliet) ∷ elements_of hello
      ++ end_token (message_tag from_juliet).name ∷ (noise ∷ []))
    ≡ ok (message (with_fields (new_message (read_attrs from_juliet)) hello), (noise ∷ []))
unfolding get_msg_extension str lookup text_eq
next_packet-message_example =
    next_packet-message toy_types from_juliet hello eof (noise ∷ []) ((refl, inl refl), tt)

next_packet-iq_example :
    next_packet toy_types eof (
      start_token (iq_tag from_juliet) ∷ parts_tokens answer
      ++ end_token (iq_tag from_juliet).name ∷ (noise ∷ []))
    ≡ ok (iq (with_parts (iq_start from_juliet) answer), (noise ∷ []))
unfolding IsPart IsPlain height written_start get_iq_extension lookup str text_eq
next_packet-iq_example = next_packet-iq toy_types from_juliet answer eof (noise ∷ []) (
  (
    (omega arith, omega arith),
    ((λ e. absurd (ground (arith, e))), (λ e. absurd (ground (arith, e)))),
  ),
  (((refl, tt, ((refl, tt, tt), tt)), omega arith, refl, refl), tt),
)

packets_end_example :
    (ps : List Packet) × (e : GoError) × PacketRun toy_types eof (noise ∷ []) ps e × (e ≢ panic)
packets_end_example = packets_end toy_types toy_types-TypesReturnErrors eof (noise ∷ [])

unmarshal-marshal_err_example :
    unmarshal_err no_err
      (err_start (str "jabber:client") bad_request)
      eof
      (err_body (str "jabber:client") bad_request ++ (noise ∷ []))
    ≡ ok (bad_request, (noise ∷ []))
unfolding str
unmarshal-marshal_err_example =
    unmarshal-marshal_err (str "jabber:client") bad_request eof (noise ∷ [])
      (omega arith, omega arith)
      ((λ e. absurd (ground (arith, e))), (λ e. absurd (ground (arith, e))))

unmarshal-marshal_node_example :
    unmarshal_node (start_of two_levels) eof (node_body two_levels ++ (noise ∷ []))
    ≡ ok (two_levels, (noise ∷ []))
unfolding IsPlain height
unmarshal-marshal_node_example =
    unmarshal-marshal_node two_levels eof (noise ∷ []) (refl, tt, ((refl, tt, tt), tt))
      (omega arith)

decode_start-Known_example : Known request_tag.name (name sm_request) known_elements
unfolding decode_start decode_nonza str text_eq decode_packet decode_made element_tokens
decode_start-Known_example =
    decode_start-Known toy_types request_tag eof (end_token request_tag.name ∷ []) sm_request []
      refl

next_packet-skips_example :
    (next_packet toy_types eof (noise ∷ []) ≡ err (next_fault eof))
    × ((ts : List Token)
        → next_packet toy_types eof ((noise ∷ []) ++ end_token stream_name ∷ ts)
          ≡ ok (stream_close, ts))
    × ((se : StartElement) (ts : List Token)
        → next_packet toy_types eof ((noise ∷ []) ++ start_token se ∷ ts)
          ≡ decode_start toy_types se eof ts)
unfolding IsBetween
next_packet-skips_example = next_packet-skips toy_types (noise ∷ []) eof (tt, tt)

next_packet-failed_example :
    next_packet toy_types eof (
      start_token (failed_tag [])
      ∷ start_token item_not_found
      ∷ end_token item_not_found.name
      ∷ end_token (failed_tag []).name
      ∷ (noise ∷ []))
    ≡ (if is_read item_not_found.name.local
        then ok (sm_failed (some item_not_found.name.local), (noise ∷ []))
        else err unknown_condition)
next_packet-failed_example = next_packet-failed toy_types eof [] item_not_found (noise ∷ []) refl

unmarshal-marshal_history_example :
    ((marshal_history text_layout ten_stanzas ≡ [])
      × (ten_stanzas ≡ no_history text_layout ten_stanzas.xml_name))
    ⊎ ((marshal_history text_layout ten_stanzas
          ≡ start_token (history_start text_layout ten_stanzas) ∷ end_token history_name ∷ [])
        × (unmarshal_history text_layout
              (history_start text_layout ten_stanzas)
              eof
              (end_token history_name ∷ (noise ∷ []))
            ≡ ok (record ten_stanzas { xml_name = history_name }, (noise ∷ []))))
unfolding str
unmarshal-marshal_history_example =
    unmarshal-marshal_history text_layout ten_stanzas eof (noise ∷ []) (omega arith, inr refl)
      (omega arith, inl refl) (omega arith, inr refl) (inr (refl, refl))
