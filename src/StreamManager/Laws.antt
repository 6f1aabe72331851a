-- ===== src/StreamManager/Laws.antt =====
-- When the reconnection loop ends, and how long it waits.
use mathlib.Core.Path.{subst}
use go_xmpp.Result.{GoError, is_permanent}
use go_xmpp.Backoff.{Backoff, default_base, default_cap, default_factor, duration, set_default}
use go_xmpp.Backoff.Bounds.{capped, duration-settings, duration_bounds, setting, settings}
use go_xmpp.StreamManager.{Outcome, resume, resume_loop, resumed, unrecoverable, zero_backoff}
use go_xmpp.Prelude.{
  All, List, Option, [], ap, arith, false, inl, inr, length, negsuc, none, pos, refl, some, suc,
  sym, true, ℕ, ℤ, ◌++◌, ◌+◌, ◌<◌, ◌∙◌, ◌∷◌, ◌≡◌,
}

-- An attempt that failed with an error that is not permanent.
abbrev pub Transient : Option GoError → Type 0
Transient none = ⊥
Transient (some e) = is_permanent e ≡ false

-- A wait of the loop: a duration that was computed without a panic, below three minutes.
abbrev pub IsWait : Option ℤ → Type 0
IsWait none = ⊥
IsWait (some (pos d)) = d < default_cap
IsWait (some (negsuc d)) = ⊥

abbrev pub rest_of : Option GoError → Outcome
rest_of none = resumed
rest_of (some e) = unrecoverable e

resume_loop-step :
    (r : ℕ → ℕ) (e : GoError) (script : List (Option GoError)) (b : Backoff)
    → is_permanent e ≡ false
    → resume_loop r (some e ∷ script) b ≡ (
      (resume_loop r script (duration (r b.attempt) b).1).0,
      (duration (r b.attempt) b).0 ∷ (resume_loop r script (duration (r b.attempt) b).1).1,
    )
unfolding resume_loop
resume_loop-step r e script b h = rw h

-- A call of Resume after which the loop does not go on.
abbrev pub IsLast : Option GoError → Type 0
IsLast none = Unit
IsLast (some e) = is_permanent e ≡ true

resume_loop-end :
    (r : ℕ → ℕ) (last : Option GoError) (script : List (Option GoError)) (b : Backoff)
    → IsLast last
    → resume_loop r (last ∷ script) b ≡ (rest_of last, [])
unfolding resume_loop
resume_loop-end r none script b h = refl
resume_loop-end r (some e) script b h = rw h

-- The backoff of the loop: full jitter and the default cap.
abbrev Jittered : Backoff → Type 0
Jittered b =
    (base : ℕ) × (factor : ℕ) × (cap : ℕ) × (attempt : ℕ) × (setting cap default_cap ≡ default_cap)
    × (b ≡ settings false base factor cap attempt)

duration-Jittered :
    (n : ℕ) (b : Backoff) → Jittered b → Jittered (duration n b).1 × IsWait (duration n b).0
duration-Jittered n b (base, factor, cap, attempt, full, same) =
    let (d, e, _, bound, _) = duration_bounds n false base factor cap attempt in
    let below : d < capped base factor cap attempt = elim bound [
      | inl h ↦ absurd (ground (arith, h))
      | inr h ↦ h.1
    ] in
    (
      (
        setting base default_base,
        setting factor default_factor,
        setting cap default_cap,
        attempt + 1,
        ap (λ k. setting k default_cap) full,
        ap (λ x. (duration n x).1) same
            ∙ ap (λ x. x.1) (duration-settings n false base factor cap attempt),
      ),
      subst IsWait (sym (ap (λ x. (duration n x).0) same ∙ e)) (omega (arith, below, full)),
    )

abbrev Report : List (Option GoError) → Option GoError → Outcome × List (Option ℤ) → Type 0
Report transient last out =
    (out.0 ≡ rest_of last) × (length out.1 ≡ length transient) × All IsWait out.1

resume_loop_lem :
    (r : ℕ → ℕ) (transient : List (Option GoError)) (last : Option GoError)
    (later : List (Option GoError)) (b : Backoff)
    → Jittered b
    → All Transient transient
    → IsLast last
    → Report transient last (resume_loop r (transient ++ last ∷ later) b)
resume_loop_lem r [] last later b j h e = rw (resume_loop-end r last later b e) (refl, refl, tt)
resume_loop_lem r (none ∷ transient) last later b j h e = absurd h.0
resume_loop_lem r (some x ∷ transient) last later b j h e =
    let (j', w) = duration-Jittered (r b.attempt) b j in
    let (o, n, ws) = resume_loop_lem r transient last later (duration (r b.attempt) b).1 j' h.1 e in
    subst (Report (some x ∷ transient) last)
      (sym (resume_loop-step r x (transient ++ last ∷ later) b h.0)) (o, ap suc n, (w, ws))

-- The reconnection loop goes on as long as Resume fails with errors that are not permanent, with one
-- wait of less than three minutes after each such failure. The first call of Resume that succeeds
-- ends it with success, and the first permanent error ends it with that error, with no further wait.
pub resume_ends :
    (r : ℕ → ℕ) (transient : List (Option GoError)) (last : Option GoError)
    (later : List (Option GoError))
    → All Transient transient
    → IsLast last
    → ((resume r (transient ++ last ∷ later)).0 ≡ rest_of last)
      × (length (resume r (transient ++ last ∷ later)).1 ≡ length transient)
      × All IsWait (resume r (transient ++ last ∷ later)).1
unfolding resume set_default
resume_ends r transient last later h e =
    resume_loop_lem r transient last later zero_backoff (0, 0, 0, 0, refl, refl) h e
