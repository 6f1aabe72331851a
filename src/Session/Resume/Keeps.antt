-- ===== src/Session/Resume/Keeps.antt =====
-- Resumption does not change whether the connection is secured.
use go_xmpp.Transport.{Transport, Wrote, write}
use go_xmpp.Transport.Io.{next_packet}
use go_xmpp.Transport.Io.Keeps.{read-secure, write-secure}
use go_xmpp.Stanza.Packet.{Packet}
use go_xmpp.Result.{Result}
use go_xmpp.Session.{Codec, Negotiation}
use go_xmpp.Session.Keeps.{Kept}
use go_xmpp.Session.Resume.{await_reply, or_empty, resume, resume_reply}
use go_xmpp.Prelude.{arith}

resume_reply-Keeps :
    (r : Result Packet) (n : Negotiation) → Kept n.transport n.config (resume_reply r n).1
unfolding resume_reply
resume_reply-Keeps r n = ground arith

await_reply-Keeps :
    (w : Wrote) (t : Transport) (n : Negotiation) → Kept t n.config (await_reply (w, t) n).1
unfolding await_reply
await_reply-Keeps w t n = ground (
  arith,
  read-secure t,
  resume_reply-Keeps (next_packet t).0 (record n { transport = (next_packet t).1 }),
)

module _ (c : Codec) where
  pub resume-Keeps : (n : Negotiation) → Kept n.transport n.config (resume c n).1
  unfolding resume
  resume-Keeps n =
      let text = or_empty (c.marshal_resume n.session.sm_state.id n.session.sm_state.inbound) in
      ground (
        arith,
        await_reply-Keeps (write text n.transport).0 (write text n.transport).1 n,
        write-secure text n.transport,
      )
