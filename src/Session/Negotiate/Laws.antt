-- ===== src/Session/Negotiate/Laws.antt =====
-- Whether a session is negotiated in clear text.
use go_xmpp.Text.{GoString, str}
use go_xmpp.Transport.{Incoming, Transport, read, start_tls, write}
use go_xmpp.Result.{GoError, is_permanent, new_conn_error, text_error}
use go_xmpp.Session.{Codec, Config, Negotiation, Session, SmState, auth, init, reset, upgrade}
use go_xmpp.Session.Bind.{bind_resource, rfc_3921_session}
use go_xmpp.Session.Bind.Keeps.{bind_resource-Keeps, rfc_3921_session-Keeps}
use go_xmpp.Session.Negotiate.{
  Made, authenticated, established, negotiated, new_session, opened_session, refused, session_of,
  tls_gate, tls_message, tls_step, try_resume,
}
use mathlib.Core.Path.{subst}
use go_xmpp.Prelude.{
  Bool, Bool-cases, Option, Option-cases, [], ap, arith, false, inl, inr, none, refl, some, sym,
  true, ◌++◌, ◌∙◌, ◌∷◌, ◌≡◌, ◌⊎◌,
}
use go_xmpp.Session.Keeps.{auth-Keeps, reset-Keeps}
use go_xmpp.Session.Resume.{resume}
use go_xmpp.Session.Resume.Keeps.{resume-Keeps}
use go_xmpp.Session.Negotiate.Keeps.{enable_stream_management-Keeps}

abbrev starttls : GoString
starttls = str "<starttls xmlns='urn:ietf:params:xml:ns:xmpp-tls'/>"

abbrev pub WroteAtMost : Transport → Transport → Type 0
WroteAtMost t t' = (t'.written ≡ t.written) ⊎ (t'.written ≡ t.written ++ starttls ∷ [])

-- The connection is secured at the end, as a session made of `n` leaves it.
abbrev Secured : Negotiation → Made → Type 0
Secured n m = n.transport.is_secure ≡ true → m.transport.is_secure ≡ true

-- What NewSession may come to where clear text is not allowed.
abbrev pub NotClear : Transport → Made → Type 0
NotClear t m =
    (m.transport.is_secure ≡ true)
    ⊎ ((m.session ≡ none)
        × ((e : GoError) × (m.error ≡ some e) × (is_permanent e ≡ true))
        × WroteAtMost t m.transport)

write-WroteAtMost : (t : Transport) → WroteAtMost t (write starttls t).1
unfolding write
write-WroteAtMost t = ground arith

start_tls_written : (t : Transport) → (start_tls t).1.written ≡ t.written
unfolding start_tls
start_tls_written t = ground arith

read_written : (t : Transport) → (read t).1.written ≡ t.written
unfolding read
read_written t = ground arith

upgrade_written :
    (i : Incoming) (t : Transport) (n : Negotiation)
    → (upgrade (i, t) n).transport.written ≡ t.written
unfolding upgrade
upgrade_written i t n = ground (arith, start_tls_written t)

tls_step_written : (n : Negotiation) → WroteAtMost n.transport (tls_step n).transport
unfolding tls_step
tls_step_written n = ground (
  arith,
  write-WroteAtMost n.transport,
  upgrade_written (read (write starttls n.transport).1).0 (read (write starttls n.transport).1).1 n,
  read_written (write starttls n.transport).1,
)

tls_step_insecure : (n : Negotiation) → (tls_step n).config ≡ n.config
unfolding tls_step
tls_step_insecure n = ground arith

init_written : (n : Negotiation) → (init n).transport.written ≡ n.transport.written
unfolding init
init_written n = ground arith

module _ (c : Codec) where
  established-Secured : (n : Negotiation) → Secured n (established c n)
  unfolding established
  established-Secured n h = elim (Option-cases (bind_resource c n).session.failure) [
    | inr (e, q) ↦ ground (arith, q, bind_resource-Keeps c n)
    | inl q ↦ elim (Option-cases (rfc_3921_session c (bind_resource c n)).session.failure) [
      | inr (e, r) ↦
          ground
            (arith, q, r, bind_resource-Keeps c n, rfc_3921_session-Keeps c (bind_resource c n))
      | inl r ↦ ground (
        arith,
        q,
        r,
        bind_resource-Keeps c n,
        rfc_3921_session-Keeps c (bind_resource c n),
        enable_stream_management-Keeps c (rfc_3921_session c (bind_resource c n)),
      )
    ]
  ]

  try_resume-Secured : (b : Bool) (n : Negotiation) → Secured n (try_resume c (b, n))
  unfolding try_resume
  try_resume-Secured true n h = h
  try_resume-Secured false n h = established-Secured n h

  second-Secured : (n : Negotiation) → Secured n (authenticated c n)
  unfolding authenticated
  second-Secured n h = elim (Option-cases (auth c n).session.failure) [
    | inr (e, q) ↦ ground (arith, q, auth-Keeps c n)
    | inl q ↦ elim (Option-cases (reset (auth c n)).session.failure) [
      | inr (e, r) ↦ ground (arith, q, r, auth-Keeps c n, reset-Keeps (auth c n))
      | inl r ↦
          let n3 = reset (auth c n) in
          ground (
            arith,
            q,
            r,
            auth-Keeps c n,
            reset-Keeps (auth c n),
            resume-Keeps c n3,
            try_resume-Secured (resume c n3).0 (resume c n3).1,
          )
    ]
  ]

  negotiated-Secured : (n : Negotiation) → Secured n (negotiated c n)
  unfolding negotiated
  negotiated-Secured n h = elim (Bool-cases n.session.tls_enabled) [
    | inl q ↦ ground (
      arith,
      q,
      reset-Keeps n,
      second-Secured (record (reset n) { session = record (reset n).session { resumed = false } }),
    )
    | inr q ↦
        ground
          (arith, q, second-Secured (record n { session = record n.session { resumed = false } }))
  ]

  tls_gate-NotClear :
      (t : Transport) (n : Negotiation)
      → n.config.insecure ≡ false
      → WroteAtMost t n.transport
      → NotClear t (tls_gate c n)
  unfolding tls_gate is_permanent
  tls_gate-NotClear t n h w = elim (Bool-cases n.transport.is_secure) [
    | inl q ↦ inl (ground (arith, q, negotiated-Secured n q))
    | inr q ↦ inr (
      ground (arith, h, q),
      (
        new_conn_error (text_error (tls_message n.session.failure)) true,
        ground (arith, h, q),
        refl,
      ),
      ground (arith, h, q, w),
    )
  ]

  opened_session-NotClear :
      (n : Negotiation) → n.config.insecure ≡ false → NotClear n.transport (opened_session c n)
  unfolding opened_session is_permanent
  opened_session-NotClear n h = elim (Option-cases n.session.failure) [
    | inl q ↦
        subst
          (λ o. NotClear n.transport (elim o [
            | some e ↦ refused (new_conn_error e true) n
            | none ↦ tls_gate c (tls_step n)
          ]))
          (sym q)
          (tls_gate-NotClear n.transport (tls_step n)
            (ap (λ o. o.insecure) (tls_step_insecure n) ∙ h) (tls_step_written n))
    | inr (e, q) ↦ inr (
      ground (arith, q),
      (new_conn_error e true, ground (arith, q), refl),
      inl (ground (arith, q)),
    )
  ]

  -- If the configuration does not allow clear text, then NewSession ends with a secured connection, or
  -- it makes no session and returns a permanent error, and then the one thing that it may have
  -- written is the request for STARTTLS. A connection is secured if the transport is marked so,
  -- which it may have been before.
  pub new_session_secure :
      (previous : Option Session) (state : SmState) (t : Transport) (o : Config)
      → o.insecure ≡ false
      → NotClear t (new_session c previous state t o)
  unfolding new_session init
  new_session_secure previous state t o h =
      let n0 : Negotiation = record {
        session = session_of previous state;
        transport = t;
        config = o;
      } in
      ground (arith, h, opened_session-NotClear (init n0) h, init_written n0)
