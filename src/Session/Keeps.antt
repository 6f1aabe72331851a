-- ===== src/Session/Keeps.antt =====
-- No step of a session but STARTTLS changes whether the connection is secured, or whether the
-- configuration allows clear text.
use go_xmpp.Transport.{Transport, start_stream}
use go_xmpp.Transport.Io.Keeps.{read-secure, start_stream-secure}
use go_xmpp.Auth.Secure.{auth_sasl-KeepsSecure}
use go_xmpp.Result.{Result-cases}
use go_xmpp.Session.{Codec, Config, Negotiation, auth, init, reset, unless_failed}
use go_xmpp.Prelude.{arith, inl, inr, refl, ◌≡◌}

abbrev pub Kept : Transport → Config → Negotiation → Type 0
Kept t o n = (n.transport.is_secure ≡ t.is_secure) × (n.config.insecure ≡ o.insecure)

abbrev pub Keeps : (Negotiation → Negotiation) → Type 0
Keeps step = (n : Negotiation) → Kept n.transport n.config (step n)

pub init-Keeps : Keeps init
unfolding init
init-Keeps n = (read-secure n.transport, refl)

pub reset-Keeps : Keeps reset
unfolding reset
reset-Keeps n = elim (Result-cases (start_stream n.transport).0) [
  | inl (id, q) ↦
      ground (arith, q, start_stream-secure n.transport, read-secure (start_stream n.transport).1)
  | inr (e, q) ↦ ground (arith, q, start_stream-secure n.transport)
]

pub unless_failed-Keeps :
    (step : Negotiation → Negotiation) → Keeps step → Keeps (unless_failed step)
unless_failed-Keeps step keeps n = ground (arith, keeps n)

module _ (c : Codec) where
  pub auth-Keeps : Keeps (auth c)
  unfolding auth
  auth-Keeps n = ground (
    arith,
    auth_sasl-KeepsSecure c.crypto n.session.features n.config.parsed_jid.node n.config.credential
        n.transport,
  )
