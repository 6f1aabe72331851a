-- ===== src/Stanza/UnAckQueue/Ids.antt =====
-- The ids in the queue are consecutive, which is what lets an acknowledgement be a single number.
use Prim.Native.Nat.{min}
use mathlib.Core.Path.{subst}
use go_xmpp.Stanza.UnAckQueue.{
  Queueable, UnAckQueue, UnAckedStz, ack_idx, acknowledge, advance, new_un_ack_queue, next_id,
  other_queueable, pop, pop_n, push, un_acked,
}
use go_xmpp.Prelude.{
  List, Option, [], ap, arith, drop, drop-length, length, none, refl, some, suc, zero, ℕ, ◌++◌, ◌+◌,
  ◌-◌, ◌∙◌, ◌∷◌, ◌≡◌, ◌≤◌,
}

-- The ids are `n`, `n + 1` and so on.
abbrev pub From : ℕ → List UnAckedStz → Type 0
From n [] = Unit
From n (s ∷ l) = (s.id ≡ n) × From (suc n) l

abbrev pub IsConsecutive : Option UnAckQueue → Type 0
IsConsecutive none = Unit
IsConsecutive (some uaq) = (n : ℕ) × From n uaq.uslice

From-snoc :
    (n : ℕ) (l : List UnAckedStz) (e : UnAckedStz)
    → From n l
    → e.id ≡ n + length l
    → From n (l ++ e ∷ [])
From-snoc n [] e h g = (omega arith, tt)
From-snoc n (s ∷ l) e h g = (h.0, From-snoc (suc n) l e h.1 (omega arith))

From-drop : (n k : ℕ) (l : List UnAckedStz) → From n l → From (n + k) (drop k l)
From-drop n zero l h = subst (λ m. From m l) (omega arith) h
From-drop n (suc k) [] h = tt
From-drop n (suc k) (s ∷ l) h =
    subst (λ m. From m (drop k l)) (omega arith) (From-drop (suc n) k l h.1)

next_id-From :
    (n : ℕ) (s : UnAckedStz) (l : List UnAckedStz)
    → From n (s ∷ l)
    → next_id (s ∷ l) ≡ n + length (s ∷ l)
unfolding next_id
next_id-From n s [] h = omega arith
next_id-From n s (t ∷ l) h = omega (arith, next_id-From (suc n) t l h.1)

push-From :
    (n : ℕ) (uaq : UnAckQueue) (s : UnAckedStz)
    → From n uaq.uslice
    → IsConsecutive (push (un_acked s) (some uaq)).0
unfolding push
push-From n uaq s =
    elim uaq.uslice
      as (λ l. From n l → IsConsecutive (push (un_acked s) (some (record { uslice = l }))).0) [
        | [] ↦ λ h. (next_id [], (refl, tt))
        | t ∷ l ↦ λ h. (n, From-snoc n (t ∷ l) _ h (next_id-From n t l h))
      ]

push-IsConsecutive :
    (x : Queueable) (q : Option UnAckQueue) → IsConsecutive q → IsConsecutive (push x q).0
unfolding push
push-IsConsecutive x none h = tt
push-IsConsecutive (other_queueable name) (some uaq) h = h
push-IsConsecutive (un_acked s) (some uaq) h = push-From h.0 uaq s h.1

advance-IsConsecutive :
    (k : ℕ) (uaq : UnAckQueue) → IsConsecutive (some uaq) → IsConsecutive (some (advance k uaq))
unfolding advance
advance-IsConsecutive k uaq h = (h.0 + k, From-drop h.0 k uaq.uslice h.1)

pop-IsConsecutive : (q : Option UnAckQueue) → IsConsecutive q → IsConsecutive (pop q).1
unfolding pop
pop-IsConsecutive none h = tt
pop-IsConsecutive (some uaq) h = ground (arith, advance-IsConsecutive 1 uaq h)

-- Every operation of the queue keeps its ids consecutive: Push of anything, Pop, PopN, and an
-- acknowledgement of any number of stanzas.
pub ops-IsConsecutive :
    (x : Queueable) (n h : ℕ) (uaq : UnAckQueue)
    → IsConsecutive (some uaq)
    → IsConsecutive (push x (some uaq)).0
      × IsConsecutive (pop (some uaq)).1
      × IsConsecutive (pop_n n (some uaq)).1
      × IsConsecutive (some (acknowledge h uaq))
unfolding pop_n acknowledge
ops-IsConsecutive x n h uaq c = (
  push-IsConsecutive x (some uaq) c,
  pop-IsConsecutive (some uaq) c,
  advance-IsConsecutive _ uaq c,
  advance-IsConsecutive _ uaq c,
)

ack_idx-From : (n h : ℕ) (l : List UnAckedStz) → From n l → ack_idx h l ≡ min (h + 1 - n) (length l)
unfolding ack_idx
ack_idx-From n h [] c = omega arith
ack_idx-From n h (s ∷ l) c = ground (arith, ack_idx-From (suc n) h l c.1)

-- An acknowledgement of `h` on a queue whose ids start at `n` drops exactly the ids up to `h`:
-- the first h + 1 - n stanzas, or all of them if there are fewer.
pub acknowledge-From :
    (n h : ℕ) (uaq : UnAckQueue)
    → From n uaq.uslice
    → ((acknowledge h uaq).uslice ≡ drop (min (h + 1 - n) (length uaq.uslice)) uaq.uslice)
      × From (n + min (h + 1 - n) (length uaq.uslice)) (acknowledge h uaq).uslice
unfolding acknowledge
acknowledge-From n h uaq c =
    let e = ack_idx-From n h uaq.uslice c in
    (
      ap (λ k. drop k uaq.uslice) e,
      subst (λ k. From (n + k) (drop (ack_idx h uaq.uslice) uaq.uslice)) e
          (From-drop n _ uaq.uslice c),
    )

ack_idx_all :
    (n h : ℕ) (l : List UnAckedStz) → From n l → n + length l ≤ h + 1 → ack_idx h l ≡ length l
ack_idx_all n h l c le = omega (arith, ack_idx-From n h l c)

acknowledge_all :
    (n h : ℕ) (uaq : UnAckQueue)
    → From n uaq.uslice
    → n + length uaq.uslice ≤ h + 1
    → acknowledge h uaq ≡ record { uslice = [] }
unfolding acknowledge advance
acknowledge_all n h uaq c le = λ i. record {
  uslice =
      (ap (λ k. drop k uaq.uslice) (ack_idx_all n h uaq.uslice c le) ∙ drop-length uaq.uslice) i;
}

-- The ids start again at 1 once the queue has run empty. So when the server has acknowledged all
-- of the stanzas, h of them with h at least 1, the next stanza that is pushed is dropped by a
-- repetition of the same acknowledgement, though the server has not counted it.
pub acknowledge_repeated :
    (h : ℕ) (uaq : UnAckQueue) (s : UnAckedStz)
    → From 1 uaq.uslice
    → length uaq.uslice ≡ h
    → 1 ≤ h
    → (acknowledge h uaq ≡ new_un_ack_queue)
      × ((push (un_acked s) (some (acknowledge h uaq))).0
          ≡ some (record { uslice = record { id = 1; stz = s.stz } ∷ [] }))
      × (acknowledge h (record { uslice = record { id = 1; stz = s.stz } ∷ [] }) ≡ new_un_ack_queue)
unfolding push next_id
acknowledge_repeated h uaq s c len pos =
    let e = acknowledge_all 1 h uaq c (omega arith) in
    (
      e,
      rw e,
      acknowledge_all 1 h (record { uslice = record { id = 1; stz = s.stz } ∷ [] }) (refl, tt)
          (omega arith),
    )
