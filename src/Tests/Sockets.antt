-- ===== src/Tests/Sockets.antt =====
-- The WebSocket transport.
use go_xmpp.Text.{str}
use go_xmpp.Result.{GoError, err, ok, panic, text_error}
use go_xmpp.Transport.WebSocket.{
  IsUp, WebsocketTransport, cleanup, close, close_again, close_statement, connect, connect-IsUp,
  dialed, write,
}
use go_xmpp.Prelude.{Option, [], false, none, refl, true, ◌∷◌, ◌≡◌}

abbrev unconnected : WebsocketTransport
unconnected = record {
  address = str "wss://h";
  domain = b'h' ∷ [];
  has_queue = false;
  has_conn = false;
  has_close = false;
  queue_closed = false;
  conn_open = false;
  cancelled = false;
  written = [];
}

abbrev connected_once : WebsocketTransport
connected_once = record unconnected {
  has_queue = true;
  has_conn = true;
  has_close = true;
  conn_open = true;
}

abbrev closed_once : WebsocketTransport
closed_once = record connected_once {
  queue_closed = true;
  conn_open = false;
  cancelled = true;
  written = close_statement ∷ [];
}

abbrev no_error : Option GoError
no_error = none

abbrev refused : GoError
refused = text_error (str "EOF")

connect-IsUp_example :
    IsUp (b'i' ∷ []) unconnected (connect (dialed (str "xmpp")) none (ok (b'i' ∷ [])) unconnected)
connect-IsUp_example = connect-IsUp (b'i' ∷ []) unconnected

close_again_example :
    (close no_error closed_once ≡ err panic)
    × (close no_error (connect (dialed (str "xmpp")) none (err refused) connected_once).1
        ≡ err panic)
unfolding close write cleanup
close_again_example = close_again no_error no_error refused connected_once closed_once refl refl
