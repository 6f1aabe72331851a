-- ===== src/Stanza/Parser/Laws.antt =====
-- stanza/parser.go: which packet comes next.
use go_xmpp.Text.{text_eq_iff, text_eq_instance}
use mathlib.Core.Path.{subst}
use go_xmpp.Result.{err, ok, ◌>>=◌}
use go_xmpp.Stanza.Packet.{stream_close}
use go_xmpp.Stanza.Xml.{
  Fault, StartElement, Token, char_data, end_token, name_eq_iff, name_eq_instance, noise,
  start_token,
}
use go_xmpp.Stanza.Extensions.{Types}
use go_xmpp.Stanza.Parser.{
  decode_start, decode_stream_end, decode_token, next_fault, next_packet, next_xmpp_token,
  stream_name,
}
use go_xmpp.Prelude.{All, List, [], ap, append-nil, arith, nat_eq, refl, ◌++◌, ◌∷◌, ◌≡◌, ◌≢◌}

-- A token between packets: anything but a start tag and the end of the stream.
unfoldable pub IsBetween : Token → Type 0
IsBetween (start_token se) = ⊥
IsBetween (end_token n) = n ≢ stream_name
IsBetween _ = Unit

next_token-skips :
    (between : List Token) (fault : Fault) (ts : List Token)
    → All IsBetween between
    → next_xmpp_token fault (between ++ ts) ≡ next_xmpp_token fault ts
unfolding next_xmpp_token IsBetween
next_token-skips [] fault ts h = refl
next_token-skips (start_token se ∷ l) fault ts h = absurd h.0
next_token-skips (end_token n ∷ l) fault ts h =
    ground (arith, next_token-skips l fault ts h.1, h.0, name_eq_iff n stream_name)
next_token-skips (char_data c ∷ l) fault ts h = next_token-skips l fault ts h.1
next_token-skips (noise ∷ l) fault ts h = next_token-skips l fault ts h.1

module _ (types : Types) (between : List Token) (fault : Fault) (h : All IsBetween between) where
  skip : (ts : List Token) → next_packet types fault (between ++ ts) ≡ next_packet types fault ts
  unfolding next_packet
  skip ts =
      ap (λ r. r >>= λ p. decode_token types p.0 fault p.1) (next_token-skips between fault ts h)

  -- NextPacket passes over text, comments and stray end tags. What comes then decides: the end of the
  -- input is the error "connection closed" (and another error of the decoder is passed on), the end tag
  -- of the stream is a stream close, and a start tag is decoded by its name.
  pub next_packet-skips :
      (next_packet types fault between ≡ err (next_fault fault))
      × ((ts : List Token)
          → next_packet types fault (between ++ end_token stream_name ∷ ts) ≡ ok (stream_close, ts))
      × ((se : StartElement) (ts : List Token)
          → next_packet types fault (between ++ start_token se ∷ ts)
            ≡ decode_start types se fault ts)
  unfolding next_packet next_xmpp_token decode_stream_end
  next_packet-skips = (
    subst (λ l. next_packet types fault l ≡ err (next_fault fault)) (append-nil between) (skip []),
    (λ ts. ground (
      arith,
      skip (end_token stream_name ∷ ts),
      name_eq_iff stream_name stream_name,
      text_eq_iff stream_name.local stream_name.local,
    )),
    (λ se ts. ground (arith, skip (start_token se ∷ ts))),
  )
