-- ===== src/Transport/Io/Keeps.antt =====
-- Reading and writing leave the mark of a secured connection as it is, and so does what is composed
-- of them.
use go_xmpp.Transport.{
  Transport, Wrote, after_open, close, closing, connect, dial, dialed, failed, read, start_stream,
  write,
}
use go_xmpp.Transport.Io.{Io, lift, next_packet, raise, send_with_writer, write_some, ◌>>=◌}
use go_xmpp.Text.{GoString, str}
use go_xmpp.Result.{GoError, Result, Result-cases, err, ok}
use go_xmpp.Prelude.{Option, arith, false, inl, inr, none, refl, some, true, ◌∙◌, ◌≡◌}

abbrev pub KeepsSecure {ℓ} : {A : Type ℓ} → Io A → Type 0
KeepsSecure m = (t : Transport) → (m t).1.is_secure ≡ t.is_secure

pub write-secure : (p : GoString) (t : Transport) → (write p t).1.is_secure ≡ t.is_secure
unfolding write
write-secure p t = ground arith

pub read-secure : (t : Transport) → (read t).1.is_secure ≡ t.is_secure
unfolding read
read-secure t = ground arith

pub bind-KeepsSecure {ℓ κ} :
    {A : Type ℓ} {B : Type κ} (m : Io A) (f : A → Io B)
    → KeepsSecure m
    → ((a : A) → KeepsSecure (f a))
    → KeepsSecure (m >>= f)
unfolding ◌>>=◌
bind-KeepsSecure m f keeps each t = elim (Result-cases (m t).0) [
  | inl (a, q) ↦ ground (arith, q, keeps t, each a (m t).1)
  | inr (e, q) ↦ ground (arith, q, keeps t)
]

pub write_some-KeepsSecure : (z p : GoString) → KeepsSecure (write_some z p)
unfolding write_some
write_some-KeepsSecure z p t = ground (arith, write-secure p t)

pub send_with_writer-KeepsSecure : (p : GoString) → KeepsSecure (send_with_writer p)
unfolding send_with_writer
send_with_writer-KeepsSecure p t = ground (arith, write-secure p t)

pub next_packet-KeepsSecure : KeepsSecure next_packet
unfolding next_packet
next_packet-KeepsSecure t = read-secure t

close-secure : (t : Transport) → (close t).is_secure ≡ t.is_secure
unfolding close
close-secure t = write-secure (str "</stream:stream>") t

closing-secure : (r : Result GoString) (t : Transport) → (closing (r, t)).1.is_secure ≡ t.is_secure
unfolding closing
closing-secure (ok id) t = refl
closing-secure (err e) t = close-secure t

after_open-secure : (w : Wrote) (t : Transport) → (after_open (w, t)).1.is_secure ≡ t.is_secure
unfolding after_open
after_open-secure (failed e) t = close-secure t
after_open-secure _ t = closing-secure _ (read t).1 ∙ read-secure t

pub start_stream-secure : (t : Transport) → (start_stream t).1.is_secure ≡ t.is_secure
unfolding start_stream
start_stream-secure t =
    after_open-secure (write t.open_statement t).0 (write t.open_statement t).1
    ∙ write-secure t.open_statement t

pub lift-KeepsSecure {ℓ} : {A : Type ℓ} (r : Result A) → KeepsSecure (lift r)
lift-KeepsSecure r t = refl

pub raise-KeepsSecure {ℓ} : (A : Type ℓ) (e : GoError) → KeepsSecure {A = A} (raise e)
raise-KeepsSecure A e t = refl

dialed-secure : (d : Option GoError) (t : Transport) → (dialed (d, t)).1.is_secure ≡ t.is_secure
unfolding dialed
dialed-secure none t = start_stream-secure (record t { connected = true; closed = false })
dialed-secure (some e) t = refl

dial-secure : (t : Transport) → (dial t).1.is_secure ≡ t.is_secure
unfolding dial
dial-secure t = ground arith

pub connect-secure : (t : Transport) → (connect t).1.is_secure ≡ t.is_secure
unfolding connect
connect-secure t = dialed-secure (dial t).0 (dial t).1 ∙ dial-secure t
