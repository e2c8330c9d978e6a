-- ===== src/Process/Start.antt =====
-- proxy/process.go: `start`. The operating system, the clock and the upstream's replies are inputs.
use llmsnap.Prelude.{
  ℕ, zero, suc, ◌==◌, ltb, Bool, not, Option, none, some, List, [], Text, codes, text_eq,
  if◌then◌else◌,
}
use llmsnap.Config.{ModelConfig}
use llmsnap.Process.{
  ProcessState, SwapError, invalid_state_transition, state_eq, swap_state, force_state,
  install_command, starting, ready, stopped,
}
use llmsnap.Process.Schedule.{
  M, exhausted, ◌>>=◌, ◌>>◌, return, on_none, on_swap, get, modify, atomically, wait_until,
  done_starting, fail_start, reset_failures,
}
use llmsnap.Process.Stop.{stop_command}

-- The errors of `start` and `wake`, in the order of the source.
pub data ReadyError : Type 0 where
  proxy_missing unsanitized : ReadyError
  already_starting_ended_in was_in : ProcessState → ReadyError
  not_starting : ProcessState → SwapError → ReadyError
  command_failed : ReadyError
  command_and_swap_failed : ProcessState → SwapError → ReadyError
  no_health_url exited_prematurely interrupted timed_out : ReadyError
  not_ready : ProcessState → SwapError → ReadyError
  already_waking_ended_in was_in_at_wake : ProcessState → ReadyError
  not_waking not_ready_after_wake : ProcessState → SwapError → ReadyError

-- One turn of the health check loop: the time since the loop began, and whether the endpoint
-- answers with 200.
pub record Poll : Type 0 where
  pub elapsed : ℕ
  pub healthy : Bool

-- What `start` meets outside: the split command (`none` if it is empty), whether `cmd.Start`
-- succeeds, whether the health URL can be built, the trimmed check endpoint, the limit of the health
-- check, and the turns of its loop.
pub record Launch : Type 0 where
  pub args : Option (List Text)
  pub command_starts : Bool
  pub health_url : Bool
  pub check_endpoint : Text
  pub max_duration : ℕ
  pub polls : ℕ → Poll
  pub fuel : ℕ

-- One turn of the ready check loop; `rest` are the next ones, after the sleep.
unfoldable pub ready_turn : ℕ → Poll → M (Option ReadyError) → M (Option ReadyError)
ready_turn max poll rest = do
  state ← get (λ p. p.state)
  if not (state_eq state starting)
      then return (some (if state_eq state stopped then exited_prematurely else interrupted))
      else if ltb max poll.elapsed
      then (stop_command >> return (some timed_out))
      else if poll.healthy
      then return none
      else rest

-- An error that ends `start`, or `none` when the health check passes.
unfoldable pub ready_check : ℕ → (ℕ → Poll) → ℕ → ℕ → M (Option ReadyError)
ready_check max polls zero k w = exhausted
ready_check max polls (suc fuel) k w =
    let rest = ready_check max polls fuel (suc k) in ready_turn max (polls k) rest w

unfoldable pub abandon_start : M (Option ReadyError)
abandon_start = do
  (cur, error) ← atomically (swap_state starting stopped)
  on_none error (return (some command_failed))
      (λ e. modify (force_state stopped) >> return (some (command_and_swap_failed cur e)))

unfoldable pub become_ready : M (Option ReadyError)
become_ready = do
  (cur, error) ← atomically (swap_state starting ready)
  on_none error (modify reset_failures >> return none) (λ e. return (some (not_ready cur e)))

unfoldable pub check_health : Launch → M (Option ReadyError)
check_health l =
    if text_eq l.check_endpoint (codes "none")
    then return none
    else if not l.health_url
    then return (some no_health_url)
    else ready_check l.max_duration l.polls l.fuel 0

-- `start` once the process is in the state starting.
unfoldable pub launch : Launch → M (Option ReadyError)
launch l = do
  modify install_command
  modify fail_start
  if not l.command_starts
      then abandon_start
      else do failure ← check_health l; on_none failure become_ready (λ e. return (some e))

-- The error of `SanitizedCommand`.
unfoldable pub unsplit : Option (List Text) → Option ReadyError
unsplit none = some unsanitized
unsplit (some args) = none

unfoldable pub join_start : M (Option ReadyError)
join_start = do
  wait_until (λ p. p.wait_starting == 0)
  state ← get (λ p. p.state)
  return (if state_eq state ready then none else some (already_starting_ended_in state))

-- `none` is Go's `nil`.
-- `start` once the process is in the state starting, with the deferred `Done`.
unfoldable pub own_start : Launch → M (Option ReadyError)
own_start l = do result ← launch l; modify done_starting; return result

unfoldable pub swap_and_start : Launch → M (Option ReadyError)
swap_and_start l = do
  (cur, error) ← atomically (swap_state stopped starting)
  on_swap error (own_start l)
      (if state_eq cur starting then join_start else return (some (was_in cur)))
      (return (some (not_starting cur invalid_state_transition)))

unfoldable pub start : ModelConfig → Launch → M (Option ReadyError)
start config l =
    if text_eq config.proxy []
    then return (some proxy_missing)
    else on_none (unsplit l.args) (swap_and_start l) (λ e. return (some e))
