-- ===== src/StreamManager.antt =====
-- stream_manager.go: the reaction to connection events and the reconnection loop. What the client's
-- Resume returns, call by call, is a script; a run that reaches its end is still trying.
pub mod Laws
pub mod Run
use go_xmpp.Text.{GoString, str, text_eq_instance}
use go_xmpp.Result.{GoError, is_permanent}
use go_xmpp.Backoff.{Backoff, duration}
use go_xmpp.Prelude.{
  List, Option, [], false, if◌then◌else◌, nat_eq, none, pos, some, ℕ, ℤ, ◌==◌, ◌∷◌,
}

-- ConnState of client.go
pub data ConnState : Type 0 where
  disconnected resuming session_established stream_error permanent_error : ConnState

-- The parts of an Event that the handler reads.
pub record Event : Type 0 where
  pub state : ConnState
  pub stream_error : GoString

pub data Outcome : Type 0 where
  -- connected again, and PostConnect was called if there is one
  resumed : Outcome
  -- the permanent error, which the text of the error that is returned quotes
  unrecoverable : GoError → Outcome
  still_trying : Outcome

-- The loop of resume with the random numbers `r`: the outcome and the waits in milliseconds.
resume_loop : (ℕ → ℕ) → List (Option GoError) → Backoff → Outcome × List (Option ℤ)
unfolding duration is_permanent
resume_loop r [] b = (still_trying, [])
resume_loop r (none ∷ script) b = (resumed, [])
resume_loop r (some e ∷ script) b =
    let (d, b') = duration (r b.attempt) b in
    let rest = resume_loop r script b' in
    if is_permanent e then (unrecoverable e, []) else (rest.0, d ∷ rest.1)

-- `var backoff backoff`
abbrev pub zero_backoff : Backoff
zero_backoff = record { no_jitter = false; base = pos 0; factor = pos 0; cap = pos 0; attempt = 0 }

unfoldable pub resume : (ℕ → ℕ) → List (Option GoError) → Outcome × List (Option ℤ)
unfolding resume_loop
resume r script = resume_loop r script zero_backoff

pub data Reaction : Type 0 where
  nothing set_login_time : Reaction
  resumes : Outcome × List (Option ℤ) → Reaction
  disconnects : Reaction
  disconnects_and_resumes : Outcome × List (Option ℤ) → Reaction

-- The handler of Run.
unfoldable pub handler : (ℕ → ℕ) → List (Option GoError) → Event → Reaction
handler r script e = elim e.state [
  | session_established ↦ set_login_time
  | disconnected ↦ resumes (resume r script)
  | stream_error ↦
      if e.stream_error == str "conflict"
      then disconnects
      else disconnects_and_resumes (resume r script)
  | permanent_error ↦ nothing
  | resuming ↦ nothing
]
