-- ===== src/Session/Negotiate/Keeps.antt =====
-- Enabling stream management does not change whether the connection is secured.
use go_xmpp.Text.{GoString}
use go_xmpp.Transport.{Transport, Wrote, write}
use go_xmpp.Transport.Io.{next_packet}
use go_xmpp.Transport.Io.Keeps.{read-secure, write-secure}
use go_xmpp.Stanza.Packet.{Packet}
use go_xmpp.Result.{Result, err, ok}
use go_xmpp.Session.{Codec, Negotiation}
use go_xmpp.Session.Negotiate.{await_enable, enable_reply, enable_stream_management, enable_with}
use go_xmpp.Session.Keeps.{Keeps, Kept, unless_failed-Keeps}
use go_xmpp.Prelude.{arith}

enable_reply-Keeps : (r : Result Packet) → Keeps (enable_reply r)
unfolding enable_reply
enable_reply-Keeps r n = ground arith

await_enable-Keeps :
    (w : Wrote) (t : Transport) (n : Negotiation) → Kept t n.config (await_enable (w, t) n)
unfolding await_enable
await_enable-Keeps w t n = ground (
  arith,
  read-secure t,
  enable_reply-Keeps (next_packet t).0 (record n { transport = (next_packet t).1 }),
)

enable_with-Keeps : (r : Result GoString) → Keeps (enable_with r)
unfolding enable_with
enable_with-Keeps (err e) n = ground arith
enable_with-Keeps (ok text) n =
    let w = write text n.transport in
    ground (arith, write-secure text n.transport, await_enable-Keeps w.0 w.1 n)

module _ (c : Codec) where
  pub enable_stream_management-Keeps : Keeps (enable_stream_management c)
  unfolding enable_stream_management
  enable_stream_management-Keeps = unless_failed-Keeps _ (λ n.
      ground (arith, enable_with-Keeps (c.marshal_enable n.config.stream_management_resume) n))
