-- ===== src/Session/Bind.antt =====
-- session.go: PacketId, bind and rfc3921Session, which ask the server by an IQ.
pub mod Keeps
pub mod Queue
use go_xmpp.Transport.{Incoming, Transport, broken, element, read}
use go_xmpp.Transport.Io.{Io, lift, raise, write_some, ◌>>=◌, ◌>>◌}
use go_xmpp.Text.{GoString, str}
use go_xmpp.Text.Decimal.{hex}
use go_xmpp.Result.{GoError, Result, err, error_text, ok, text_error}
use go_xmpp.Stanza.Packet.{
  Attrs, Iq, IqPayload, bind, iq, is_optional, name, no_name, stream_session,
}
use go_xmpp.Stanza.Iq.{IqError, new_iq}
use go_xmpp.Session.{Codec, Negotiation, Session, unless_failed}
use go_xmpp.Prelude.{Option, [], if◌then◌else◌, inl, inr, none, not, some, ◌++◌, ◌+◌, ◌⊎◌}

-- PacketId: the counter goes up first.
unfoldable pub packet_id : Negotiation → GoString × Negotiation
packet_id n =
    let id = n.session.last_packet_id + 1 in
    (hex id, record n { session = record n.session { last_packet_id = id } })

set_request : GoString → Attrs
set_request id = record { kind = str "set"; id = id; from = []; to = []; lang = [] }

-- An error of NewIQ.
iq_error : GoError
iq_error = text_error (str "a stanza type is mandatory")

as_iq : Incoming → Result Iq
as_iq (element (iq q)) = ok q
as_iq (broken e) = err e
as_iq _ = err (text_error (str "expected element type <iq>"))

-- `s.err = errors.New(context + s.err.Error())`
describe : GoString → Result Iq → Result Iq
describe context (ok q) = ok q
describe context (err e) = err (text_error (context ++ error_text e))

read_iq : GoString → Io Iq
unfolding describe read as_iq
read_iq context t = let (i, t') = read t in (describe context (as_iq i), t')

abbrev bind_context : GoString
bind_context = str "error decoding iq bind result: "

abbrev session_context : GoString
session_context = str "expecting iq result after session open: "

bind_jid : Option IqPayload → Result GoString
bind_jid (some (bind name resource jid)) = ok jid
bind_jid _ = err (text_error (str "iq bind result missing"))

-- What a step makes of its exchange with the server: the error, or a new session.
after : {A : Type 0} → (A → Session → Session) → Result A × Transport → Negotiation → Negotiation
after f (err e, t) n = record n { session = record n.session { failure = some e }; transport = t }
after f (ok a, t) n = record n { session = f a n.session; transport = t }

set_bind_jid : GoString → Session → Session
set_bind_jid jid s = record s { bind_jid = jid }

same_session : Iq → Session → Session
same_session q s = s

module _ (c : Codec) where
  send_made : GoString → IqPayload → Iq ⊎ IqError → Io (Unit {0})
  unfolding iq_error write_some
  send_made zero_message payload (inr e) = raise iq_error
  send_made zero_message payload (inl q) = do
    text ← lift (c.marshal (iq (record q { payload = some payload })))
    write_some zero_message text

  -- The IQ of type set with a payload: made, marshalled, written; a count of 0 has its own message.
  request : GoString → IqPayload → GoString → Io (Unit {0})
  unfolding new_iq set_request send_made
  request zero_message payload id = send_made zero_message payload (new_iq none (set_request id))

  bind_exchange : GoString → GoString → Io GoString
  unfolding request read_iq bind_jid
  bind_exchange resource id = do
    request (str "failed to write bind iq stanza to the server : wrote 0 bytes")
        (bind no_name resource []) id
    q ← read_iq bind_context
    lift (bind_jid q.payload)

  unfoldable pub bind_resource : Negotiation → Negotiation
  unfolding packet_id bind_exchange after set_bind_jid
  bind_resource = unless_failed (λ n.
      let (id, n') = packet_id n in
      after set_bind_jid (bind_exchange n'.config.parsed_jid.resource id n'.transport) n')

  session_exchange : GoString → Io Iq
  unfolding request read_iq
  session_exchange id = do
    request (str "there was a problem marshaling the session IQ : wrote 0 bytes to server")
        (stream_session no_name) id
    read_iq session_context

  open_session : Negotiation → Negotiation
  unfolding packet_id session_exchange after same_session
  open_session n =
      let (id, n') = packet_id n in after same_session (session_exchange id n'.transport) n'

  unfoldable pub rfc_3921_session : Negotiation → Negotiation
  unfolding open_session
  rfc_3921_session =
      unless_failed
        (λ n. if not (is_optional n.session.features.session) then open_session n else n)
