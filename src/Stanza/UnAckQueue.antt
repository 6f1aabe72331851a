-- ===== src/Stanza/UnAckQueue.antt =====
-- stanza/stream_management.go: the queue of stanzas that the server has not acknowledged (XEP-0198).
-- A nil *UnAckQueue is `none`: every method accepts a nil receiver. Ids are Go ints, which do not
-- come near their limit here, as each pushed stanza takes one.
pub mod Fifo
pub mod Ids
use go_xmpp.Text.{GoString}
use go_xmpp.Text.Decimal.{max_int}
use go_xmpp.Prelude.{
  Bool, List, Option, [], drop, false, if◌then◌else◌, leb, length, ltb, nat_beq, none, some, suc,
  take, true, zero, ℕ, ◌++◌, ◌+◌, ◌∷◌,
}

pub record UnAckedStz : Type 0 where
  pub id : ℕ
  pub stz : GoString

pub record UnAckQueue : Type 0 where
  pub uslice : List UnAckedStz

-- What the interface Queueable may hold: the one implementation of the package, or another one.
pub data Queueable : Type 0 where
  un_acked : UnAckedStz → Queueable
  other_queueable : GoString → Queueable

abbrev pub new_un_ack_queue : UnAckQueue
new_un_ack_queue = record { uslice = [] }

-- The first `n` elements, fewer if the queue is shorter. A Go int that is not positive is `zero`.
unfoldable pub peek_n : ℕ → Option UnAckQueue → List UnAckedStz
peek_n n none = []
peek_n zero (some uaq) = []
peek_n (suc n) (some uaq) =
    let m = if ltb (length uaq.uslice) (suc n) then length uaq.uslice else suc n in
    take m uaq.uslice

unfoldable pub peek : Option UnAckQueue → Option UnAckedStz
peek none = none
peek (some uaq) = elim uaq.uslice [ [] ↦ none | s ∷ rest ↦ some s ]

-- uaq.Uslice[n:]
unfoldable pub advance : ℕ → UnAckQueue → UnAckQueue
advance n uaq = record { uslice = drop n uaq.uslice }

unfoldable pub pop : Option UnAckQueue → Option UnAckedStz × Option UnAckQueue
unfolding advance peek
pop none = (none, none)
pop (some uaq) = elim (peek (some uaq)) [
  | none ↦ (none, some uaq)
  | some s ↦ (some s, some (advance 1 uaq))
]

unfoldable pub pop_n : ℕ → Option UnAckQueue → List UnAckedStz × Option UnAckQueue
unfolding advance peek_n
pop_n n none = ([], none)
pop_n n (some uaq) = let r = peek_n n (some uaq) in (r, some (advance (length r) uaq))

-- The id after those of the queue: uaq.Uslice[len(uaq.Uslice)-1].Id + 1, and 1 if it is empty.
unfoldable pub next_id : List UnAckedStz → ℕ
next_id [] = 1
next_id (s ∷ []) = s.id + 1
next_id (s ∷ t ∷ l) = next_id (t ∷ l)

-- The new queue and the error: true is a nil error. An element of another type is refused.
unfoldable pub push : Queueable → Option UnAckQueue → Option UnAckQueue × Bool
push q none = (none, true)
push (other_queueable name) (some uaq) = (some uaq, false)
push (un_acked s) (some uaq) =
    let e : UnAckedStz = record { id = next_id uaq.uslice; stz = s.stz } in
    (some (record { uslice = uaq.uslice ++ e ∷ [] }), true)

unfoldable pub empty : Option UnAckQueue → Bool
empty none = true
empty (some uaq) = nat_beq (length uaq.uslice) 0

-- How many leading stanzas an acknowledgement of `h` stanzas covers: the loop
-- `for ackIdx < len(Uslice) && Uslice[ackIdx].Id <= h { ackIdx++ }` of session.go and router.go.
unfoldable pub ack_idx : ℕ → List UnAckedStz → ℕ
ack_idx h [] = 0
ack_idx h (s ∷ l) = let rest = suc (ack_idx h l) in if leb s.id h then rest else 0

-- int(h) of a 64-bit uint: from 2^63 on it is negative, hence below every id, as 0 is.
unfoldable pub int_of_uint : ℕ → ℕ
int_of_uint h = if leb h max_int then h else 0

-- uaq.Uslice = uaq.Uslice[ackIdx:]
unfoldable pub acknowledge : ℕ → UnAckQueue → UnAckQueue
unfolding ack_idx advance
acknowledge h uaq = advance (ack_idx h uaq.uslice) uaq
