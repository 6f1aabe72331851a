-- ===== src/Tests/Waits.antt =====
-- Backoff and reconnection.
use go_xmpp.Result.{GoError, is_permanent, panic}
use go_xmpp.StreamManager.Run.{
  StreamManager, a_client, connect, new_stream_manager, run, run-stop, stop,
}
use go_xmpp.Backoff.{default_base, default_cap, duration}
use go_xmpp.Backoff.Bounds.{capped, duration_bounds, setting, settings}
use go_xmpp.StreamManager.{disconnected, resume}
use go_xmpp.StreamManager.Laws.{IsWait, rest_of, resume_ends}
use Prim.Native.Nat.{min}
use go_xmpp.Prelude.{
  All, List, Option, [], false, if◌then◌else◌, length, none, pos, refl, some, true, ℕ, ◌++◌, ◌+◌,
  ◌<◌, ◌∷◌, ◌≡◌, ◌≤◌, ◌⊎◌,
}

abbrev fresh_manager : StreamManager
fresh_manager = new_stream_manager (a_client disconnected) true

abbrev no_error : Option GoError
no_error = none

abbrev failures : List (Option GoError)
failures = some panic ∷ some panic ∷ []

run-stop_example :
    (fresh_manager.client ≡ a_client disconnected)
    × (no_error ≡ none)
    × (((run no_error fresh_manager).1).connects ≡ fresh_manager.connects + 1)
    × (((run no_error fresh_manager).1).has_handler ≡ true)
    × (((run no_error fresh_manager).1).post_connects ≡ (
        if fresh_manager.has_post_connect
        then fresh_manager.post_connects + 1
        else fresh_manager.post_connects))
    × (stop ((run no_error fresh_manager).1)
        ≡ some (record ((run no_error fresh_manager).1) {
          has_handler = false;
          disconnects = fresh_manager.disconnects + 1;
          waiting = fresh_manager.waiting;
        }))
unfolding run connect new_stream_manager
run-stop_example = run-stop no_error fresh_manager ((run no_error fresh_manager).1) refl

resume_ends_example :
    ((resume (λ n. n) (failures ++ none ∷ [])).0 ≡ rest_of none)
    × (length (resume (λ n. n) (failures ++ none ∷ [])).1 ≡ length failures)
    × All IsWait (resume (λ n. n) (failures ++ none ∷ [])).1
unfolding is_permanent
resume_ends_example = resume_ends (λ n. n) failures none [] (refl, (refl, tt)) tt

duration_bounds_example :
    (d : ℕ) × ((duration 5 (settings true 0 0 0 2)).0 ≡ some (pos d))
    × (d ≤ setting 0 default_cap)
    × (((true ≡ true)
          × (d ≡ capped 0 0 0 2)
          × (min (setting 0 default_base) (setting 0 default_cap) ≤ d))
        ⊎ ((true ≡ false) × (d < capped 0 0 0 2)))
    × ((duration 5 (settings true 0 0 0 2)).1.attempt ≡ 2 + 1)
duration_bounds_example = duration_bounds 5 true 0 0 0 2
