-- ===== src/Tests/Queue.antt =====
-- The queue of unacknowledged stanzas.
use go_xmpp.Stanza.UnAckQueue.{acknowledge, peek_n, pop_n}
use go_xmpp.Tests.Fixtures.{queue_ab}
use go_xmpp.Stanza.UnAckQueue.Fifo.{payloads, pop_n-payloads, texts}
use go_xmpp.Stanza.UnAckQueue.Ids.{From, acknowledge-From}
use Prim.Native.Nat.{min}
use go_xmpp.Prelude.{drop, length, refl, some, ◌++◌, ◌+◌, ◌-◌, ◌≡◌}

acknowledge-From_example :
    ((acknowledge 1 queue_ab).uslice
      ≡ drop (min (1 + 1 - 1) (length queue_ab.uslice)) queue_ab.uslice)
    × From (1 + min (1 + 1 - 1) (length queue_ab.uslice)) (acknowledge 1 queue_ab).uslice
acknowledge-From_example = acknowledge-From 1 1 queue_ab (refl, (refl, tt))

pop_n-payloads_example :
    (payloads (some queue_ab)
      ≡ texts (pop_n 1 (some queue_ab)).0 ++ payloads (pop_n 1 (some queue_ab)).1)
    × (length (pop_n 1 (some queue_ab)).0 ≡ min 1 (length queue_ab.uslice))
    × ((pop_n 1 (some queue_ab)).0 ≡ peek_n 1 (some queue_ab))
pop_n-payloads_example = pop_n-payloads 1 queue_ab
