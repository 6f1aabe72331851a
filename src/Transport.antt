-- ===== src/Transport.antt =====
-- xmpp_transport.go: the TCP transport as the rest of the library uses it (the interface Transport of
-- transport.go). What the network and the server do is a script: the result of each dial, of each
-- Write and of the TLS handshake, and the XML elements that the decoder meets, in order.
pub mod Io
pub mod WebSocket
use go_xmpp.Text.{GoString, str}
use go_xmpp.Result.{GoError, Result, err, new_conn_error, ok, text_error}
use go_xmpp.Stanza.Packet.{Packet}
use go_xmpp.Prelude.{Bool, List, Option, [], false, if◌then◌else◌, none, some, true, ◌++◌, ◌∷◌}

-- What the decoder meets next.
pub data Incoming : Type 0 where
  -- a complete element that one of the decoders of package stanza reads, or a stream's end
  element : Packet → Incoming
  -- the opening of a stream, with its id
  opened : GoString → Incoming
  -- a SASL challenge, with its text
  challenge : GoString → Incoming
  -- the element proceed of STARTTLS
  proceed : Incoming
  -- a read or syntax error
  broken : GoError → Incoming

pub data Wrote : Type 0 where
  wrote_all wrote_zero : Wrote
  failed : GoError → Wrote

pub data TlsOutcome : Type 0 where
  tls_ok : TlsOutcome
  handshake_failed hostname_failed : GoError → TlsOutcome

pub record Transport : Type 0 where
  pub open_statement : GoString
  pub insecure_skip_verify : Bool
  pub does_start_tls : Bool
  pub connected : Bool
  pub closed : Bool
  pub is_secure : Bool
  pub written : List GoString
  -- the script
  pub dials : List (Option GoError)
  pub writes : List Wrote
  pub handshakes : List TlsOutcome
  pub incoming : List Incoming

-- One Write of the connection; a closed connection fails.
write_conn : GoString → Transport → Wrote × Transport
write_conn p t =
    if t.closed
    then (failed (text_error (str "use of closed network connection")), t)
    else elim t.writes [
      | [] ↦ (wrote_all, record t { written = t.written ++ p ∷ [] })
      | wrote_all ∷ ws ↦ (wrote_all, record t { written = t.written ++ p ∷ []; writes = ws })
      | wrote_zero ∷ ws ↦ (wrote_zero, record t { writes = ws })
      | failed e ∷ ws ↦ (failed e, record t { writes = ws })
    ]

-- XMPPTransport.Write
unfoldable pub write : GoString → Transport → Wrote × Transport
unfolding write_conn
write p t =
    if t.connected
    then write_conn p t
    else (failed (text_error (str "cannot write: not connected, no readwriter")), t)

-- XMPPTransport.Close: the stream's end is written, whatever comes of it, and the connection closed.
unfoldable pub close : Transport → Transport
unfolding write
close t = record (write (str "</stream:stream>") t).1 { closed = true }

-- The decoder moves past what it reads.
unfoldable pub read : Transport → Incoming × Transport
read t = elim t.incoming [
  | [] ↦ (broken (text_error (str "connection closed")), t)
  | i ∷ rest ↦ (i, record t { incoming = rest })
]

as_opened : Incoming → Result GoString
as_opened (opened id) = ok id
as_opened (broken e) = err e
as_opened _ = err (text_error (str "xmpp: expected <stream> or <open>"))

closing : Result GoString × Transport → Result GoString × Transport
unfolding close
closing (ok id, t) = (ok id, t)
closing (err e, t) = (err (new_conn_error e false), close t)

after_open : Wrote × Transport → Result GoString × Transport
unfolding closing read as_opened new_conn_error
after_open (failed e, t) = (err (new_conn_error e true), close t)
after_open (_, t) = let (i, t') = read t in closing (as_opened i, t')

-- XMPPTransport.StartStream; stanza.InitStream reads the stream's opening.
unfoldable pub start_stream : Transport → Result GoString × Transport
unfolding after_open write
start_stream t = after_open (write t.open_statement t)

dial : Transport → Option GoError × Transport
dial t = elim t.dials [ [] ↦ (none, t) | d ∷ ds ↦ (d, record t { dials = ds }) ]

dialed : Option GoError × Transport → Result GoString × Transport
unfolding start_stream
dialed (some e, t) = (err (new_conn_error e true), t)
dialed (none, t) = start_stream (record t { connected = true; closed = false })

-- XMPPTransport.Connect. The field isSecure is not set.
unfoldable pub connect : Transport → Result GoString × Transport
unfolding dial dialed
connect t = dialed (dial t)

shake : List TlsOutcome → TlsOutcome × List TlsOutcome
shake [] = (tls_ok, [])
shake (o ∷ os) = (o, os)

secured : TlsOutcome → Transport → Option GoError × Transport
secured tls_ok t = (none, record t { is_secure = true })
secured (handshake_failed e) t = (some e, t)
secured (hostname_failed e) t =
    if t.insecure_skip_verify
    then (none, record t { is_secure = true })
    else (some e, record t { is_secure = false })

-- XMPPTransport.StartTLS: the handshake, and the check of the host name unless it is skipped.
unfoldable pub start_tls : Transport → Option GoError × Transport
unfolding shake secured
start_tls t = let (o, os) = shake t.handshakes in secured o (record t { handshakes = os })
