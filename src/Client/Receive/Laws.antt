-- ===== src/Client/Receive/Laws.antt =====
-- What one turn of the receiver does, and that the receiver ends.
use go_xmpp.Transport.{Incoming, Transport, element}
use go_xmpp.Transport.Io.{as_packet}
use go_xmpp.Result.{Result-cases}
use go_xmpp.Stanza.Packet.{Packet, StreamError, iq, message, presence, stream_error}
use go_xmpp.Session.{Codec, Session}
use go_xmpp.Client.{Client, tell}
use go_xmpp.Client.Receive.{
  Turn, continues, counts, crashes, on_packet, on_read, receive, recv, stops,
}
use go_xmpp.Client.Receive.Counts.{inbound_of, incoming_of, on_packet-counts, route_error}
use go_xmpp.Prelude.{
  List, Option-cases, [], arith, inl, inr, length, refl, some, suc, zero, ℕ, ◌++◌, ◌+◌, ◌<◌, ◌∷◌,
  ◌≡◌, ◌≢◌, ◌⊎◌,
}
use go_xmpp.Client.Connect.{disconnect}
use go_xmpp.Router.Dispatch.{run_matched}

List-cases : {A : Type 0} (l : List A) → (l ≡ []) ⊎ ((x : A) × (rest : List A) × (l ≡ x ∷ rest))
List-cases [] = inl refl
List-cases (x ∷ rest) = inr (x, rest, refl)

Turn-cases : (t : Turn) → (t ≡ continues) ⊎ ((t ≡ stops) ⊎ (t ≡ crashes))
Turn-cases continues = inl refl
Turn-cases stops = inr (inl refl)
Turn-cases crashes = inr (inr refl)

-- The stanzas of XMPP.
abbrev pub IsStanza : Packet → Type 0
IsStanza (message m) = Unit
IsStanza (presence p) = Unit
IsStanza (iq q) = Unit
IsStanza _ = ⊥

counts-cases : (p : Packet) → (IsStanza p × (counts p ≡ 1)) ⊎ ((¬ IsStanza p) × (counts p ≡ 0))
unfolding counts
counts-cases (message m) = inl (tt, refl)
counts-cases (presence p) = inl (tt, refl)
counts-cases (iq q) = inl (tt, refl)
counts-cases _ = inr ((λ h. h), refl)

module _ {H : Type 0} (c : Codec) where
  receive_reads :
      (cl : Client H) (s : Session) (t : Transport) (i : Incoming) (rest : List Incoming)
      → cl.session ≡ some s
      → cl.transport ≡ some t
      → t.incoming ≡ i ∷ rest
      → receive c cl
        ≡ on_read c s (as_packet i) (record cl { transport = some (record t { incoming = rest }) })
  unfolding receive
  receive_reads cl s t i rest hs ht e = ground (arith, hs, ht, e)

  -- A turn that reads a packet takes one element from the connection, and the count of received
  -- stanzas goes up by one for a message, a presence or an IQ, and stays for anything else, whatever
  -- the routes do and whatever becomes of what is written.
  pub receive_inbound :
      (cl : Client H) (s : Session) (t : Transport) (p : Packet) (rest : List Incoming)
      → cl.session ≡ some s
      → cl.transport ≡ some t
      → t.incoming ≡ element p ∷ rest
      → (incoming_of (receive c cl).1 ≡ rest)
        × ((IsStanza p × (inbound_of (receive c cl).1 ≡ s.sm_state.inbound + 1))
            ⊎ ((¬ IsStanza p) × (inbound_of (receive c cl).1 ≡ s.sm_state.inbound)))
  unfolding on_read
  receive_inbound cl s t p rest hs ht e =
      let cl1 : Client H = record cl { transport = some (record t { incoming = rest }) } in
      let read = receive_reads cl s t (element p) rest hs ht e in
      let counted = on_packet-counts c s p cl1 hs in
      (
        ground (arith, hs, read, counted),
        elim (counts-cases p) [
          | inl (h, q) ↦ inl (h, ground (arith, hs, read, counted, q))
          | inr (h, q) ↦ inr (h, ground (arith, hs, read, counted, q))
        ],
      )

  -- A stream error is routed twice: its handler runs in the receiver, and the same packet is routed
  -- again in a goroutine. The receiver goes on.
  pub receive_stream_error :
      (cl : Client H) (s : Session) (t : Transport) (e : StreamError) (rest : List Incoming)
      → cl.session ≡ some s
      → cl.transport ≡ some t
      → t.incoming ≡ element (stream_error e) ∷ rest
      → ((receive c cl).0 ≡ continues)
        × ((receive c cl).1.effects ≡ cl.effects ++ run_matched cl.router (stream_error e))
        × ((receive c cl).1.spawned ≡ cl.spawned ++ stream_error e ∷ [])
  unfolding on_read on_packet tell disconnect
  receive_stream_error cl s t e rest hs ht q =
      let cl1 : Client H = record cl { transport = some (record t { incoming = rest }) } in
      ground
        (arith, receive_reads cl s t (element (stream_error e)) rest hs ht q, route_error c e cl1)

  receive_continues :
      (cl : Client H)
      → (receive c cl).0 ≡ continues
      → suc (length (incoming_of (receive c cl).1)) ≡ length (incoming_of cl)
  unfolding receive on_read
  receive_continues cl e = elim (Option-cases cl.transport) [
    | inl q ↦ absurd (ground (arith, q, e))
    | inr (t, q) ↦ elim (Option-cases cl.session) [
      | inl r ↦ absurd (ground (arith, q, r, e))
      | inr (s, r) ↦ elim (List-cases t.incoming) [
        | inl k ↦ absurd (ground (arith, q, r, k, e))
        | inr (i, rest, k) ↦
            let cl1 : Client H = record cl { transport = some (record t { incoming = rest }) } in
            elim (Result-cases (as_packet i)) [
              | inr (er, m) ↦ absurd (ground (arith, receive_reads cl s t i rest r q k, m, e))
              | inl (p, m) ↦
                  ground (
                    arith,
                    receive_reads cl s t i rest r q k,
                    m,
                    on_packet-counts c s p cl1 r,
                    q,
                    k,
                  )
            ]
      ]
    ]
  ]

  -- The receiver ends, whatever the server sends, once it has had a turn for each element that
  -- comes and one more: the connection's end, if nothing earlier, stops it.
  pub recv_ends :
      (fuel : ℕ) (cl : Client H) → length (incoming_of cl) < fuel → (recv c fuel cl).0 ≢ continues
  unfolding recv
  recv_ends zero cl h e = absurd (ground (arith, h))
  recv_ends (suc fuel) cl h e = elim (Turn-cases (receive c cl).0) [
    | inl q ↦
        recv_ends fuel (receive c cl).1 (ground (arith, receive_continues cl q, h))
          (ground (arith, q, e))
    | inr (inl q) ↦ ground (arith, q, e)
    | inr (inr q) ↦ ground (arith, q, e)
  ]
