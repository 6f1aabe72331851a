-- ===== src/Transport/WebSocket.antt =====
-- websocket_transport.go: the life of the WebSocket transport. The WebSocket library, the network and the
-- reader goroutine are outside: what dialing, writing and reading the stream's opening give are arguments.
-- The channel `queue` and the connection are shared objects. A method with a value receiver changes them,
-- but not the fields of the transport that it is called on.
use go_xmpp.Text.{GoString, has_prefix, str, text_eq, text_eq_instance}
use go_xmpp.Result.{GoError, Result, conn_error, err, ok, panic, text_error, ◌>>=◌}
use go_xmpp.Prelude.{
  Bool, List, Option, [], arith, false, if◌then◌else◌, nat_eq, none, not, some, true, ◌&&◌, ◌++◌,
  ◌==◌, ◌∷◌, ◌≡◌,
}

-- The fields queue, wsConn and closeFunc (with closeCtx) as pointers that may be nil, the objects that
-- they point to, and what was written.
pub record WebsocketTransport : Type 0 where
  pub address : GoString
  pub domain : GoString
  pub has_queue : Bool
  pub has_conn : Bool
  pub has_close : Bool
  pub queue_closed : Bool
  pub conn_open : Bool
  pub cancelled : Bool
  pub written : List GoString

-- websocket.Dial: an error, or a connection with the subprotocol that the server took.
pub data Dialed : Type 0 where
  dial_failed : GoError → Dialed
  dialed : GoString → Dialed

-- cleanup. Closing a channel that is closed is a panic. The result has the changed fields, which a
-- method with a value receiver drops.
abbrev pub close_conn : WebsocketTransport → WebsocketTransport
close_conn t = if t.has_conn then record t { conn_open = false; has_conn = false } else t

abbrev pub cancel : WebsocketTransport → WebsocketTransport
cancel t = if t.has_close then record t { cancelled = true; has_close = false } else t

unfoldable pub cleanup : WebsocketTransport → Result WebsocketTransport
cleanup t =
    if t.has_queue && t.queue_closed
    then err panic
    else ok (
        cancel (
          close_conn
            (if t.has_queue then record t { queue_closed = true; has_queue = false } else t)))

-- The objects after a call on a copy, with the fields as they were.
abbrev pub fields_of : WebsocketTransport → WebsocketTransport → WebsocketTransport
fields_of t copy = record copy {
  has_queue = t.has_queue;
  has_conn = t.has_conn;
  has_close = t.has_close;
}

abbrev pub on_copy : WebsocketTransport → Result WebsocketTransport → Result WebsocketTransport
on_copy t r = r >>= λ copy. ok (fields_of t copy)

-- Write, through the connection; a nil connection is a panic. `failure` is the library's error.
unfoldable pub write : GoString → Option GoError → WebsocketTransport → Result WebsocketTransport
write p failure t =
    if not t.has_conn
    then err panic
    else elim failure [ some e ↦ err e | none ↦ ok (record t { written = t.written ++ p ∷ [] }) ]

-- `t.Write(...)` whose error is dropped: a panic is not.
abbrev pub best_effort : WebsocketTransport → Result WebsocketTransport → Result WebsocketTransport
best_effort t (ok u) = ok u
best_effort t (err panic) = err panic
best_effort t (err _) = ok t

abbrev pub close_statement : GoString
close_statement = str "<close xmlns=\"urn:ietf:params:xml:ns:xmpp-framing\" />"

-- Close, with a value receiver.
unfoldable pub close : Option GoError → WebsocketTransport → Result WebsocketTransport
unfolding write cleanup
close failure t = best_effort t (write close_statement failure t) >>= λ u. on_copy t (cleanup u)

unfoldable pub is_secure : WebsocketTransport → Bool
unfolding has_prefix
is_secure t = has_prefix t.address (str "wss:")

unfoldable pub start_tls : WebsocketTransport → Option GoError
start_tls t = some (text_error (str "transport does not support StartTLS"))

abbrev pub does_start_tls : WebsocketTransport → Bool
does_start_tls t = false

-- What a call returned, when a cleanup on a copy went well; its panic otherwise.
abbrev pub after_cleanup :
    WebsocketTransport → Result WebsocketTransport → GoError → Result GoString × WebsocketTransport
after_cleanup t (ok u) e = (err e, u)
after_cleanup t (err p) e = (err p, t)

abbrev pub open_statement : WebsocketTransport → GoString
open_statement t =
    str "<open xmlns=\"urn:ietf:params:xml:ns:xmpp-framing\" to=\""
    ++ (t.domain ++ str "\" version=\"1.0\" />")

-- What InitStream gave, once the opening was written.
abbrev pub opened_by :
    Option GoError → Result GoString → WebsocketTransport → Result GoString × WebsocketTransport
opened_by failure (ok id) t = (ok id, t)
opened_by failure (err e) t = after_cleanup t (close failure t) (conn_error e false)

abbrev pub after_opening :
    Option GoError
    → Result GoString
    → WebsocketTransport
    → Result WebsocketTransport
    → Result GoString × WebsocketTransport
after_opening failure opening t (ok u) = opened_by failure opening u
after_opening failure opening t (err panic) = (err panic, t)
after_opening failure opening t (err e) =
    after_cleanup t (on_copy t (cleanup t)) (conn_error e true)

-- StartStream, with a value receiver; `failure` is the error of the library's Write, if any, and
-- `opening` what stanza.InitStream returns.
unfoldable pub start_stream :
    Option GoError → Result GoString → WebsocketTransport → Result GoString × WebsocketTransport
unfolding write cleanup close
start_stream failure opening t =
    after_opening failure opening t (write (open_statement t) failure t)

abbrev pub unsupported : GoError
unsupported = text_error (str "the websocket server does not support the xmpp subprotocol")

abbrev pub not_supported :
    WebsocketTransport → Result WebsocketTransport → Result GoString × WebsocketTransport
not_supported t (ok u) = (err (conn_error unsupported true), u)
not_supported t (err p) = (err p, t)

-- Connect: a new channel and a new context, then the connection.
unfoldable pub connect :
    Dialed
    → Option GoError
    → Result GoString
    → WebsocketTransport
    → Result GoString × WebsocketTransport
unfolding cleanup start_stream
connect d failure opening t =
    let fresh : WebsocketTransport = record t {
      has_queue = true;
      queue_closed = false;
      has_close = true;
      cancelled = false;
    } in
    elim d [
      | dial_failed e ↦ (err (conn_error e true), fresh)
      | dialed protocol ↦
          if not (protocol == str "xmpp")
          then not_supported fresh (cleanup fresh)
          else start_stream failure opening (record fresh { has_conn = true; conn_open = true })
    ]

-- A call that returned the id, with all objects open and the opening written last, so that Close writes
-- the closing and closes all three objects.
abbrev pub IsUp : GoString → WebsocketTransport → Result GoString × WebsocketTransport → Type 0
IsUp id t r =
    (r.0 ≡ ok id)
    × (r.1.conn_open ≡ true)
    × (r.1.queue_closed ≡ false)
    × (r.1.written ≡ t.written ++ open_statement t ∷ [])
    × (close none r.1
        ≡ ok (record r.1 {
          written = r.1.written ++ close_statement ∷ [];
          conn_open = false;
          queue_closed = true;
          cancelled = true;
        }))

-- When the server takes the subprotocol xmpp and the stream's opening is written and answered, Connect
-- returns the id of the stream, with the connection and the channel open and the opening written, and
-- a Close that can write then writes the closing and closes connection, channel and context.
pub connect-IsUp :
    (id : GoString) (t : WebsocketTransport)
    → IsUp id t (connect (dialed (str "xmpp")) none (ok id) t)
unfolding connect start_stream write cleanup close text_eq str
connect-IsUp id t = ground arith

-- Close has a value receiver: the fields of the transport stay, and the channel that they point to is
-- closed. A second Close panics, and so does one after a Connect that failed at the stream's opening.
pub close_again :
    (failure again : Option GoError) (e : GoError) (t u : WebsocketTransport)
    → t.has_queue ≡ true
    → close failure t ≡ ok u
    → (close again u ≡ err panic)
      × (close again (connect (dialed (str "xmpp")) none (err e) t).1 ≡ err panic)
unfolding connect start_stream write cleanup close text_eq str
close_again failure again e t u h q = ground (arith, h, q)
