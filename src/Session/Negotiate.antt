-- ===== src/Session/Negotiate.antt =====
-- session.go: EnableStreamManagement and NewSession.
mod Keeps
pub mod Queue
pub mod Laws
use go_xmpp.Transport.{Incoming, Transport, Wrote, broken, element, failed, read, write}
use go_xmpp.Transport.Io.{Io, lift, next_packet, raise, write_some, ◌>>=◌, ◌>>◌}
use go_xmpp.Text.{GoString, str, text_eq_instance}
use go_xmpp.Text.Decimal.{hex}
use go_xmpp.Result.{GoError, Result, err, error_text, new_conn_error, ok, panic, text_error}
use go_xmpp.Stanza.Packet.{
  Attrs, Iq, IqPayload, Packet, SmEnabled, bind, does_stream_management, iq, is_optional, message,
  name, no_name, sm_enabled, sm_failed, stream_session,
}
use go_xmpp.Stanza.Iq.{IqError, new_iq}
use go_xmpp.Session.{
  Codec, Config, Negotiation, Session, SmState, auth, init, new, no_sm_state, reset, set_err,
  start_tls_if_supported, unless_failed,
}
use go_xmpp.Prelude.{
  Bool, Option, [], false, if◌then◌else◌, inl, inr, nat_eq, none, not, some, true, ◌&&◌, ◌++◌, ◌+◌,
  ◌==◌, ◌||◌, ◌⊎◌,
}
use go_xmpp.Stanza.UnAckQueue.{new_un_ack_queue}
use go_xmpp.Session.Bind.{bind_resource, rfc_3921_session}
use go_xmpp.Session.Resume.{resume, set_sm_state}

-- strconv.ParseBool, where an error counts as false.
unfoldable pub parse_bool : GoString → Bool
parse_bool s =
    s == str "1"
    || s == str "t"
    || s == str "T"
    || s == str "true"
    || s == str "TRUE"
    || s == str "True"

sm_enabled_by : SmEnabled → Negotiation → Negotiation
unfolding parse_bool set_err set_sm_state
sm_enabled_by e n =
    let state = record no_sm_state {
      id = e.id;
      preferred_recon_addr = e.location;
      un_ack_queue = some new_un_ack_queue;
    } in
    set_sm_state state (
      set_err none
        (record n { config = record n.config { stream_management_resume = parse_bool e.resume } }))

-- GroupErrorName is called through a nil interface if the server named no reason.
group_error : Option GoString → GoError
group_error none = panic
group_error (some name) = text_error (str "failed to establish session : " ++ name)

enable_reply : Result Packet → Negotiation → Negotiation
unfolding sm_enabled_by group_error set_err set_sm_state
enable_reply (err e) n = set_err (some e) n
enable_reply (ok (sm_enabled e)) n = sm_enabled_by e n
enable_reply (ok (sm_failed group)) n =
    set_sm_state
      (record no_sm_state { stream_error_group = group; un_ack_queue = some new_un_ack_queue })
      (set_err (some (group_error group)) n)
enable_reply (ok p) n = set_err (some (text_error (str "unexpected reply to SM enable"))) n

await_enable : Wrote × Transport → Negotiation → Negotiation
unfolding next_packet enable_reply set_err
await_enable (failed e, t) n = set_err (some e) (record n { transport = t })
await_enable (_, t) n = let (r, t') = next_packet t in enable_reply r (record n { transport = t' })

enable_with : Result GoString → Negotiation → Negotiation
unfolding await_enable write set_err
enable_with (err e) n = set_err (some e) n
enable_with (ok text) n = await_enable (write text n.transport) n

-- What NewSession returns, and the client's transport and configuration after it.
pub record Made : Type 0 where
  pub session : Option Session
  pub error : Option GoError
  pub transport : Transport
  pub config : Config

-- `return s, s.err`, and `return nil, err`
returned : Negotiation → Made
returned n = record {
  session = some n.session;
  error = n.session.failure;
  transport = n.transport;
  config = n.config;
}

refused : GoError → Negotiation → Made
refused e n = record { session = none; error = some e; transport = n.transport; config = n.config }

-- `if s.err != nil { return s, s.err }`
abbrev and_then : Negotiation → (Negotiation → Made) → Made
and_then n k = elim n.session.failure [ none ↦ k n | some e ↦ returned n ]

-- The text of the error that `%s` prints.
tls_message : Option GoError → GoString
tls_message none = str "failed to negotiate TLS session : %!s(<nil>)"
tls_message (some e) = str "failed to negotiate TLS session : " ++ error_text e

-- `if !c.transport.IsSecure() { s.startTlsIfSupported(c.config) }`
unfoldable pub tls_step : Negotiation → Negotiation
unfolding start_tls_if_supported
tls_step n = if n.transport.is_secure then n else start_tls_if_supported n

-- The session of an earlier connection is used again, `none` being a nil c.Session.
unfoldable pub session_of : Option Session → SmState → Session
session_of none state = new state
session_of (some s) state = s

module _ (c : Codec) where
  unfoldable pub enable_stream_management : Negotiation → Negotiation
  unfolding enable_with
  enable_stream_management = unless_failed (λ n.
      if not (does_stream_management n.session.features) || not n.config.stream_management_enable
      then n
      else enable_with (c.marshal_enable n.config.stream_management_resume) n)

  -- NewSession after a failed or impossible resumption.
  established : Negotiation → Made
  unfolding bind_resource rfc_3921_session enable_stream_management returned
  established n =
      and_then (bind_resource c n)
        (λ n1. and_then (rfc_3921_session c n1) (λ n2. returned (enable_stream_management n2)))

  try_resume : Bool × Negotiation → Made
  unfolding established returned
  try_resume (true, n) = returned n
  try_resume (false, n) = established n

  authenticated : Negotiation → Made
  unfolding auth reset resume try_resume returned
  authenticated n = and_then (auth c n) (λ n2. and_then (reset n2) (λ n3. try_resume (resume c n3)))

  -- NewSession from the second stream on.
  negotiated : Negotiation → Made
  unfolding reset authenticated
  negotiated n =
      let n0 = if n.session.tls_enabled then reset n else n in
      authenticated (record n0 { session = record n0.session { resumed = false } })

  tls_gate : Negotiation → Made
  unfolding negotiated refused new_conn_error tls_message
  tls_gate n =
      if not n.transport.is_secure && not n.config.insecure
      then refused (new_conn_error (text_error (tls_message n.session.failure)) true) n
      else negotiated n

  opened_session : Negotiation → Made
  unfolding tls_step tls_gate refused new_conn_error
  opened_session n = elim n.session.failure [
    | some e ↦ refused (new_conn_error e true) n
    | none ↦ tls_gate (tls_step n)
  ]

  unfoldable pub new_session : Option Session → SmState → Transport → Config → Made
  unfolding opened_session init session_of
  new_session previous state t o =
      opened_session
        (init (record { session = session_of previous state; transport = t; config = o }))
