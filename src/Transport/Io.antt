-- ===== src/Transport/Io.antt =====
-- Code that reads and writes a transport and may return an error early: `if err != nil { return err }`
-- is the bind of this monad. What was written before an error stays written.
pub mod Keeps
use go_xmpp.Text.{GoString, str}
use go_xmpp.Result.{GoError, Result, err, ok, text_error}
use go_xmpp.Stanza.Packet.{Packet}
use go_xmpp.Transport.{
  Incoming, Transport, Wrote, broken, challenge, element, failed, opened, proceed, read, write,
  wrote_all, wrote_zero,
}
use go_xmpp.Prelude.{Bool, false, true}

abbrev pub Io {ℓ} : Type ℓ → Type ℓ
Io A = Transport → Result A × Transport

abbrev pub continue {ℓ κ} : {A : Type ℓ} {B : Type κ} → Result A → (A → Io B) → Io B
continue (ok a) f t = f a t
continue (err e) f t = (err e, t)

infixl 5 ◌>>=◌ ◌>>◌
unfoldable pub ◌>>=◌ {ℓ κ} : {A : Type ℓ} {B : Type κ} → Io A → (A → Io B) → Io B
◌>>=◌ m f t = let (r, t') = m t in continue r f t'

abbrev pub ◌>>◌ {ℓ} : {B : Type ℓ} → Io (Unit {0}) → Io B → Io B
m >> k = m >>= λ _. k

abbrev pub pure {ℓ} : {A : Type ℓ} → A → Io A
pure a t = (ok a, t)

abbrev pub raise {ℓ} : {A : Type ℓ} → GoError → Io A
raise e t = (err e, t)

abbrev pub lift {ℓ} : {A : Type ℓ} → Result A → Io A
lift r t = (r, t)

-- `if test { return err }`
abbrev pub reject_if : Bool → GoError → Io (Unit {0})
reject_if true e = raise e
reject_if false e = pure tt

-- A Write whose count is tested too: an error, or nothing written, is returned as an error.
abbrev as_written : GoString → Wrote × Transport → Result (Unit {0}) × Transport
as_written zero_message (wrote_all, t) = (ok tt, t)
as_written zero_message (wrote_zero, t) = (err (text_error zero_message), t)
as_written zero_message (failed e, t) = (err e, t)

unfoldable pub write_some : GoString → GoString → Io (Unit {0})
unfolding write
write_some zero_message p t = as_written zero_message (write p t)

-- A Write whose error alone is tested: Client.sendWithWriter.
abbrev as_sent : Wrote × Transport → Result (Unit {0}) × Transport
as_sent (failed e, t) = (err e, t)
as_sent (_, t) = (ok tt, t)

unfoldable pub send_with_writer : GoString → Io (Unit {0})
unfolding write
send_with_writer p t = as_sent (write p t)

abbrev pub as_packet : Incoming → Result Packet
as_packet (element p) = ok p
as_packet (opened id) = err (text_error (str "unexpected XMPP packet"))
as_packet (challenge text) = err (text_error (str "unexpected XMPP packet"))
as_packet proceed = err (text_error (str "unknown namespace"))
as_packet (broken e) = err e

-- stanza.NextPacket
unfoldable pub next_packet : Io Packet
unfolding read
next_packet t = let (i, t') = read t in (as_packet i, t')
