-- ===== src/Stanza/UnAckQueue/Fifo.antt =====
-- The queue against its interface FifoQueue (stanza/fifo_queue.go): a plain list, taken from the
-- front and grown at the back.
use Prim.Native.Nat.{min}
use go_xmpp.Text.{GoString}
use go_xmpp.Stanza.UnAckQueue.{
  UnAckQueue, UnAckedStz, empty, other_queueable, peek, peek_n, pop, pop_n, push, un_acked,
}
use go_xmpp.Prelude.{
  List, Option, [], ap, arith, drop, false, if◌then◌else◌, inl, inr, length, length-take, ltb, none,
  refl, some, suc, sym, take, take-append-drop, true, zero, ℕ, ◌++◌, ◌∙◌, ◌∷◌, ◌≡◌, ◌⊎◌,
}

abbrev pub texts : List UnAckedStz → List GoString
texts [] = []
texts (s ∷ l) = s.stz ∷ texts l

-- What the queue holds, without the ids.
abbrev pub payloads : Option UnAckQueue → List GoString
payloads none = []
payloads (some uaq) = texts uaq.uslice

texts-append : (l k : List UnAckedStz) → texts (l ++ k) ≡ texts l ++ texts k
texts-append [] k = refl
texts-append (s ∷ l) k = ap (λ t. s.stz ∷ t) (texts-append l k)

length-texts : (l : List UnAckedStz) → length (texts l) ≡ length l
length-texts [] = refl
length-texts (s ∷ l) = ap suc (length-texts l)

take-drop-texts : (n : ℕ) (l : List UnAckedStz) → texts (take n l) ++ texts (drop n l) ≡ texts l
take-drop-texts n l = sym (texts-append (take n l) (drop n l)) ∙ ap texts (take-append-drop n l)

-- On a queue that is not nil, Push puts the text of an UnAckedStz behind those that wait, and
-- leaves the queue as it was, with an error, on any other Queueable.
pub payloads-push :
    (uaq : UnAckQueue) (s : UnAckedStz) (name : GoString)
    → (payloads (push (un_acked s) (some uaq)).0 ≡ payloads (some uaq) ++ s.stz ∷ [])
      × ((push (un_acked s) (some uaq)).1 ≡ true)
      × (push (other_queueable name) (some uaq) ≡ (some uaq, false))
unfolding push
payloads-push uaq s name = (texts-append uaq.uslice _, refl, refl)

-- Pop is Peek and the removal of one element: it gives what was pushed first and leaves the rest,
-- and nothing exactly if the queue is nil or empty.
pub pop-payloads :
    (q : Option UnAckQueue)
    → ((pop q).0 ≡ peek q)
      × (((s : UnAckedStz) × ((pop q).0 ≡ some s) × (payloads q ≡ s.stz ∷ payloads (pop q).1))
          ⊎ (((pop q).0 ≡ none) × ((pop q).1 ≡ q) × (empty q ≡ true)))
unfolding pop empty
pop-payloads none = (refl, inr (refl, refl, refl))
pop-payloads (some uaq) =
    elim uaq.uslice
      as (λ l.
        (let u : UnAckQueue = record { uslice = l } in
          ((pop (some u)).0 ≡ peek (some u))
          × (((s : UnAckedStz) × ((pop (some u)).0 ≡ some s)
                × (payloads (some u) ≡ s.stz ∷ payloads (pop (some u)).1))
              ⊎ (((pop (some u)).0 ≡ none)
                  × ((pop (some u)).1 ≡ some u)
                  × (empty (some u) ≡ true))))) [
                    | [] ↦ (refl, inr (refl, refl, refl))
                    | s ∷ l ↦ (refl, inl (s, refl, refl))
                  ]

pop_n_length :
    (n : ℕ) (l : List UnAckedStz)
    → length (peek_n n (some (record { uslice = l }))) ≡ min n (length l)
unfolding peek_n
pop_n_length zero l = omega arith
pop_n_length (suc n) l =
    length-take (if ltb (length l) (suc n) then length l else suc n) l (ground arith) ∙ ground arith

peek_n-take :
    (n : ℕ) (l : List UnAckedStz)
    → peek_n n (some (record { uslice = l }))
      ≡ take (length (peek_n n (some (record { uslice = l })))) l
unfolding peek_n
peek_n-take zero l = refl
peek_n-take (suc n) l =
    let m = if ltb (length l) (suc n) then length l else suc n in
    ap (λ k. take k l) (sym (length-take m l (ground arith)))

-- PopN gives the first n elements, fewer exactly if the queue is shorter, and leaves the others in
-- their order; PeekN gives the same elements.
pub pop_n-payloads :
    (n : ℕ) (uaq : UnAckQueue)
    → (payloads (some uaq) ≡ texts (pop_n n (some uaq)).0 ++ payloads (pop_n n (some uaq)).1)
      × (length (pop_n n (some uaq)).0 ≡ min n (length uaq.uslice))
      × ((pop_n n (some uaq)).0 ≡ peek_n n (some uaq))
unfolding pop_n
pop_n-payloads n uaq = (
  sym (take-drop-texts (length (peek_n n (some uaq))) uaq.uslice)
      ∙ ap (λ l. texts l ++ texts (drop (length (peek_n n (some uaq))) uaq.uslice))
          (sym (peek_n-take n uaq.uslice)),
  pop_n_length n uaq.uslice,
  refl,
)
