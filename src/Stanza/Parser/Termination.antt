-- ===== src/Stanza/Parser/Termination.antt =====
-- stanza/parser.go: every packet takes tokens, so that reading packets comes to an end.
use go_xmpp.Text.{str, text_eq_instance}
use go_xmpp.Result.{GoError, Result, Result-cases, err, ok, panic}
use go_xmpp.Stanza.Packet.{
  Packet, handshake, sasl_failure, sasl_success, stream_close, stream_error, stream_features,
}
use go_xmpp.Stanza.Xml.{
  Fault, StartElement, Token, char_data, end_token, name_eq_instance, noise, start_token,
}
use go_xmpp.Stanza.Xml.Consumes.{
  Consumes, Consumes-NotLonger, Consumes-bind, Consumes-if, Consumes-later, NotLonger,
}
use go_xmpp.Stanza.Extensions.{Types}
use go_xmpp.Stanza.Parser.{
  decode_client, decode_component, decode_sasl, decode_start, decode_stream_end,
  decode_stream_start, decode_token, next_packet, next_xmpp_token, ns_client, ns_component, ns_sasl,
  ns_stream, ns_stream_management, stream_name,
}
use go_xmpp.Stanza.Parser.Progress.{
  TypesReturnErrors, decode_iq-Consumes, decode_message-Consumes, decode_packet-Consumes,
  decode_presence-Consumes,
}
use go_xmpp.Stanza.Parser.Progress.Fields.{
  NotLonger-if, refused-Consumes, refused-NotLonger, stay-NotLonger,
}
use mathlib.Core.Path.{subst}
use go_xmpp.Prelude.{
  List, [], arith, inl, inr, length, nat_eq, suc, zero, ℕ, ◌<◌, ◌==◌, ◌∷◌, ◌≡◌, ◌≢◌,
}
use go_xmpp.Stanza.Parser.Nonza.Progress.{decode_nonza-Consumes}

module _ (types : Types) (returns : TypesReturnErrors types) where
  decode_stream_start-Consumes :
      (se : StartElement) (fault : Fault) (ts : List Token)
      → Consumes ts (decode_stream_start types se fault ts)
  unfolding decode_stream_start
  decode_stream_start-Consumes se fault ts =
      Consumes-if ts (se.name.local == str "error") _ _
        (decode_packet-Consumes stream_error (types.make_stream_error se) (returns.2 se) fault ts)
        (Consumes-if ts (se.name.local == str "features") _ _
          (decode_packet-Consumes stream_features (types.make_stream_features se) (returns.3 se)
            fault ts)
          (refused-Consumes _ ts _))

  decode_sasl-Consumes :
      (se : StartElement) (fault : Fault) (ts : List Token)
      → Consumes ts (decode_sasl types se fault ts)
  unfolding decode_sasl
  decode_sasl-Consumes se fault ts =
      Consumes-if ts (se.name.local == str "success") _ _
        (decode_packet-Consumes sasl_success (types.make_sasl_success se) (returns.4 se) fault ts)
        (Consumes-if ts (se.name.local == str "failure") _ _
          (decode_packet-Consumes sasl_failure (types.make_sasl_failure se) (returns.5 se) fault ts)
          (refused-Consumes _ ts _))

  decode_client-Consumes :
      (se : StartElement) (fault : Fault) (ts : List Token)
      → Consumes ts (decode_client types se fault ts)
  unfolding decode_client
  decode_client-Consumes se fault ts =
      Consumes-if ts (se.name.local == str "message") _ _
        (decode_message-Consumes types returns se fault ts)
        (Consumes-if ts (se.name.local == str "presence") _ _
          (decode_presence-Consumes types returns se fault ts)
          (Consumes-if ts (se.name.local == str "iq") _ _
            (decode_iq-Consumes types returns se fault ts) (refused-Consumes _ ts _)))

  decode_component-Consumes :
      (se : StartElement) (fault : Fault) (ts : List Token)
      → Consumes ts (decode_component types se fault ts)
  unfolding decode_component
  decode_component-Consumes se fault ts =
      Consumes-if ts (se.name.local == str "handshake") _ _
        (decode_packet-Consumes handshake (types.make_handshake se) (returns.6 se) fault ts)
        (Consumes-if ts (se.name.local == str "message") _ _
          (decode_message-Consumes types returns se fault ts)
          (Consumes-if ts (se.name.local == str "presence") _ _
            (decode_presence-Consumes types returns se fault ts)
            (Consumes-if ts (se.name.local == str "iq") _ _
              (decode_iq-Consumes types returns se fault ts) (refused-Consumes _ ts _))))

  decode_start-Consumes :
      (se : StartElement) (fault : Fault) (ts : List Token)
      → Consumes ts (decode_start types se fault ts)
  unfolding decode_start
  decode_start-Consumes se fault ts =
      Consumes-if ts (se.name.space == ns_stream) _ _ (decode_stream_start-Consumes se fault ts) (
        Consumes-if ts (se.name.space == ns_sasl) _ _ (decode_sasl-Consumes se fault ts) (
          Consumes-if ts (se.name.space == ns_client) _ _ (decode_client-Consumes se fault ts) (
            Consumes-if ts (se.name.space == ns_component) _ _
              (decode_component-Consumes se fault ts)
              (Consumes-if ts (se.name.space == ns_stream_management) _ _
                (decode_nonza-Consumes se fault ts) (refused-Consumes _ ts _)))))

  token-Consumes : (fault : Fault) (ts : List Token) → Consumes ts (next_xmpp_token fault ts)
  unfolding next_xmpp_token Consumes
  token-Consumes fault [] = ground arith
  token-Consumes fault (start_token se ∷ ts) = omega arith
  token-Consumes fault (end_token n ∷ ts) =
      Consumes-if (end_token n ∷ ts) (n == stream_name) _ _ (omega arith)
        (Consumes-later (end_token n) ts _ (token-Consumes fault ts))
  token-Consumes fault (char_data c ∷ ts) =
      Consumes-later (char_data c) ts _ (token-Consumes fault ts)
  token-Consumes fault (noise ∷ ts) = Consumes-later noise ts _ (token-Consumes fault ts)

  decode_token-NotLonger :
      (t : Token) (fault : Fault) (ts : List Token) → NotLonger ts (decode_token types t fault ts)
  unfolding decode_stream_end
  decode_token-NotLonger (end_token n) fault ts =
      NotLonger-if ts (n.local == str "stream") _ _ (stay-NotLonger ts stream_close)
        (refused-NotLonger _ ts _)
  decode_token-NotLonger (start_token se) fault ts =
      Consumes-NotLonger ts _ (decode_start-Consumes se fault ts)
  decode_token-NotLonger (char_data c) fault ts = refused-NotLonger _ ts _
  decode_token-NotLonger noise fault ts = refused-NotLonger _ ts _

  -- NextPacket: when decoding by reflection returns its errors, the result is an error and no panic, or
  -- fewer tokens are left than there were; so reading packets until an error comes to an end.
  pub next_packet-Consumes :
      (fault : Fault) (ts : List Token) → Consumes ts (next_packet types fault ts)
  unfolding next_packet
  next_packet-Consumes fault ts =
      Consumes-bind ts _ _ (token-Consumes fault ts) (λ p. decode_token-NotLonger p.0 fault p.1)

-- The packets that a loop over NextPacket reads, and the error that it stops with.
pub data PacketRun (types : Types) (fault : Fault)
    : List Token → List Packet → GoError → Type 0 where
  run_stop :
      {ts : List Token} {e : GoError}
      → next_packet types fault ts ≡ err e
      → PacketRun types fault ts [] e
  run_more :
      {ts us : List Token} {p : Packet} {ps : List Packet} {e : GoError}
      → next_packet types fault ts ≡ ok (p, us)
      → PacketRun types fault us ps e
      → PacketRun types fault ts (p ∷ ps) e

module _ (types : Types) (returns : TypesReturnErrors types) where
  stop-next :
      (fault : Fault) (ts : List Token) (r : Result (Packet × List Token))
      → next_packet types fault ts ≡ r
      → Consumes ts r
  stop-next fault ts r q = subst (Consumes ts) q (next_packet-Consumes types returns fault ts)

  packets_within :
      (fault : Fault) (f : ℕ) (ts : List Token)
      → length ts < f
      → (ps : List Packet) × (e : GoError) × PacketRun types fault ts ps e × (e ≢ panic)
  unfolding Consumes
  packets_within fault zero ts h = absurd (omega arith)
  packets_within fault (suc f) ts h = elim (Result-cases (next_packet types fault ts)) [
    | inl (p, q) ↦
        let shorter : length p.1 < length ts = stop-next fault ts (ok p) q in
        let later = packets_within fault f p.1 (omega arith) in
        (p.0 ∷ later.0, later.1, run_more q later.2, later.3)
    | inr (e, q) ↦ ([], e, run_stop q, stop-next fault ts (err e) q)
  ]

  -- A loop over NextPacket that goes on until an error, as the receivers do, comes to one on every input,
  -- and that error is no panic, when decoding by reflection returns its errors.
  pub packets_end :
      (fault : Fault) (ts : List Token)
      → (ps : List Packet) × (e : GoError) × PacketRun types fault ts ps e × (e ≢ panic)
  packets_end fault ts = packets_within fault (suc (length ts)) ts (omega arith)
