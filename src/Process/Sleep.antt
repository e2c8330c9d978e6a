-- ===== src/Process/Sleep.antt =====
-- proxy/process.go: `Sleep`, `wake`, `MakeIdle` and `makeReady`.
use llmsnap.Prelude.{
  ℕ, suc, ◌==◌, Bool, true, false, not, ◌||◌, Option, none, some, List, [], ◌∷◌, codes, text_eq,
  if◌then◌else◌,
}
use llmsnap.Config.{ModelConfig, HttpEndpoint}
use llmsnap.Process.{
  invalid_state_transition, state_eq, is_valid_transition, swap_state, ready, sleep_pending, asleep,
  waking,
}
use llmsnap.Process.Schedule.{
  M, ◌>>=◌, ◌>>◌, return, on_none, on_swap, get, modify, atomically, wait_until, done_sleeping,
  done_waking,
}
use llmsnap.Process.Stop.{stop_immediately, stop}
use llmsnap.Process.Start.{
  ReadyError, Launch, start, already_waking_ended_in, was_in_at_wake, not_waking,
  not_ready_after_wake,
}

-- The requests of one list in sequence: whether all succeed. `answers i` says whether request `i`
-- succeeds.
unfoldable pub send_from : (ℕ → Bool) → ℕ → List HttpEndpoint → Bool
send_from answers i [] = true
send_from answers i (e ∷ es) =
    let rest = send_from answers (suc i) es in if answers i then rest else false

-- `sendSleepRequests` and `sendWakeRequests`.
unfoldable pub send_requests : (ℕ → Bool) → List HttpEndpoint → Bool
send_requests answers [] = false
send_requests answers (e ∷ es) = send_from answers 0 (e ∷ es)

unfoldable pub is_sleep_enabled : ModelConfig → Bool
is_sleep_enabled config = text_eq config.sleep_mode (codes "enable")

-- `Sleep` once the process is in the state sleepPending, up to the deferred `Done`.
unfoldable pub fall_asleep : ModelConfig → (ℕ → Bool) → M (Unit {0})
fall_asleep config answers =
    if not (send_requests answers config.sleep_endpoints) then stop_immediately else do
      (cur, error) ← atomically (swap_state sleep_pending asleep)
      on_none error (return tt) (λ e. stop_immediately)

unfoldable pub sleep : ModelConfig → (ℕ → Bool) → M (Unit {0})
sleep config answers = if not (is_sleep_enabled config) then return tt else do
  state ← get (λ p. p.state)
  if state_eq state sleep_pending
      then (do wait_until (λ p. p.wait_sleeping == 0); _ ← get (λ p. p.state); return tt)
      else if not (is_valid_transition state sleep_pending)
      then return tt
      else do
        wait_until (λ p. p.in_flight_requests == 0)
        (cur, error) ← atomically (swap_state ready sleep_pending)
        on_none error (fall_asleep config answers >> modify done_sleeping) (λ e. return tt)

unfoldable pub join_wake : M (Option ReadyError)
join_wake = do
  wait_until (λ p. p.wait_waking == 0)
  state ← get (λ p. p.state)
  return (if state_eq state ready then none else some (already_waking_ended_in state))

-- `wake` once the process is in the state waking, up to the deferred `Done`.
unfoldable pub wake_up : ModelConfig → (ℕ → Bool) → Launch → M (Option ReadyError)
wake_up config answers l =
    if not (send_requests answers config.wake_endpoints)
    then (stop_immediately >> start config l)
    else do
      (cur, error) ← atomically (swap_state waking ready)
      on_none error (return none) (λ e. return (some (not_ready_after_wake cur e)))

unfoldable pub own_wake : ModelConfig → (ℕ → Bool) → Launch → M (Option ReadyError)
own_wake config answers l = do result ← wake_up config answers l; modify done_waking; return result

unfoldable pub wake : ModelConfig → (ℕ → Bool) → Launch → M (Option ReadyError)
wake config answers l = do
  (cur, error) ← atomically (swap_state asleep waking)
  on_swap error (own_wake config answers l)
      (if state_eq cur waking then join_wake else return (some (was_in_at_wake cur)))
      (return (some (not_waking cur invalid_state_transition)))

unfoldable pub make_ready : ModelConfig → (ℕ → Bool) → Launch → M (Option ReadyError)
make_ready config answers l = do
  state ← get (λ p. p.state)
  if state_eq state sleep_pending || state_eq state asleep || state_eq state waking
      then wake config answers l
      else start config l

unfoldable pub make_idle : ModelConfig → (ℕ → Bool) → M (Unit {0})
make_idle config answers = if is_sleep_enabled config then sleep config answers else stop
