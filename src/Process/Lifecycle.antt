-- ===== src/Process/Lifecycle.antt =====
-- proxy/process.go: what the methods do when no other goroutine interferes, and the command exits
-- when it is told to.
use llmsnap.Process.Sleep.{
  sleep, wake, fall_asleep, own_wake, wake_up, is_sleep_enabled, send_requests, make_ready,
}
use llmsnap.Process.Stop.{stop_immediately, stop_command, stop, shut_down}
use llmsnap.Process.Swap.{state_eq_refl}
use llmsnap.Config.{ModelConfig}
use llmsnap.Process.Start.{
  check_health, launch, ready_check, Launch, Poll, ready_turn, become_ready, start, swap_and_start,
  own_start, unsplit,
}
use llmsnap.Process.{
  Process, ready, starting, install_command, stopped, swap_state, state_eq, is_valid_transition,
  add_waiting, emit, asleep, stopping, waking, closed_in, sleep_pending, settle_from,
  force_stopped_on, close_wait_chan,
}
use llmsnap.Prelude.{
  ℕ, [], suc, true, ◌+◌, ◌≡◌, ◌≢◌, none, ◌∷◌, ◌≤◌, arith, codes, inl, ◌⊎◌, false, text_eq_refl, inr,
  zero, Bool-cases, text_eq, refl, List, Bool, text_eq_sound, ◌∙◌, ap, if◌then◌else◌,
}
use llmsnap.Process.Schedule.{
  on_none, World, ◌>>◌, return, atomically, interfered, done, fail_start, reset_failures, Action,
  acts, on_swap, settles, wait_until, act, closes, done_waking, wait_from, done_sleeping,
  done_starting, >>=-done,
}

-- The health check passes at some turn from `k` on, and no turn up to it is late.
abbrev pub Passes : ℕ → (ℕ → Poll) → ℕ → ℕ → Type 0
Passes max polls zero k = ⊥
Passes max polls (suc fuel) k =
    ((polls k).elapsed ≤ max)
    × (((polls k).healthy ≡ true) ⊎ (((polls k).healthy ≡ false) × Passes max polls fuel (suc k)))

-- The others are at rest.
abbrev pub alone : Process → World
alone p = record { process = p; others = [] }

ready_check_lem :
    (max : ℕ) (polls : ℕ → Poll) (fuel k : ℕ) (p : Process)
    → p.state ≡ starting
    → Passes max polls fuel k
    → ready_check max polls fuel k (alone p) ≡ done none (alone p)
unfolding ready_check ready_turn atomically interfered
ready_check_lem max polls zero k p s h = absurd h
ready_check_lem max polls (suc fuel) k p s h =
    ground (arith, state_eq_refl starting, ready_check_lem max polls fuel (suc k) p s)

-- What a launch needs from outside.
pub record Succeeds (config : ModelConfig) (l : Launch) : Type 0 where
  pub proxied : config.proxy ≢ []
  pub args : l.args ≢ none
  pub starts : l.command_starts ≡ true
  pub checks :
      (l.check_endpoint ≡ codes "none")
      ⊎ ((l.health_url ≡ true) × Passes l.max_duration l.polls l.fuel 0)

check_health_lem :
    (config : ModelConfig) (l : Launch) (p : Process)
    → Succeeds config l
    → p.state ≡ starting
    → check_health l (alone p) ≡ done none (alone p)
unfolding check_health
check_health_lem config l p h s = elim h.checks [
  | inl e ↦ rw (e, text_eq_refl (codes "none")) refl
  | inr c ↦ elim (Bool-cases (text_eq l.check_endpoint (codes "none"))) [
    | inl t ↦ rw t refl
    | inr f ↦ rw (f, c.0) (ready_check_lem l.max_duration l.polls l.fuel 0 p s c.1)
  ]
]

-- The process after a start that took `p` from stopped to ready.
abbrev pub started : Process → Process
started p = record p {
  state = ready;
  cancel_upstream = true;
  cmd_wait_chan = p.made;
  made = suc p.made;
  failed_start_count = 0;
  events = (starting, ready) ∷ (stopped, starting) ∷ p.events;
}

abbrev launching : Process → Process
launching p = record p {
  state = starting;
  wait_starting = p.wait_starting + 1;
  cancel_upstream = true;
  cmd_wait_chan = p.made;
  made = suc p.made;
  failed_start_count = p.failed_start_count + 1;
  events = (stopped, starting) ∷ p.events;
}

launch_lem :
    (config : ModelConfig) (l : Launch) (p : Process)
    → Succeeds config l
    → launch l (
        alone (record p {
          state = starting;
          wait_starting = p.wait_starting + 1;
          events = (stopped, starting) ∷ p.events;
        }))
      ≡ done none (alone (record (started p) { wait_starting = p.wait_starting + 1 }))
unfolding launch atomically interfered install_command fail_start become_ready swap_state state_eq
    is_valid_transition add_waiting emit reset_failures on_none
launch_lem config l p h = ground (arith, h.starts, check_health_lem config l (launching p) h refl)

-- Alone, with a command that starts and a health check that passes in time, `start` takes a stopped
-- process to ready and returns nil: the failure count is 0, the command has its own new channel, both
-- transitions are logged, and all else, the wait groups included, is as it was.
pub start_lem :
    (config : ModelConfig) (l : Launch) (p : Process)
    → p.state ≡ stopped
    → Succeeds config l
    → start config l (alone p) ≡ done none (alone (started p))
unfolding start swap_and_start own_start atomically interfered swap_state state_eq emit add_waiting
    is_valid_transition on_none on_swap unsplit done_starting
start_lem config l p s h =
    ground (arith, h.proxied, text_eq_sound config.proxy [], h.args, launch_lem config l p h)

-- A process that can be stopped: its command runs, under the channel that it was given.
pub record Running (p : Process) : Type 0 where
  pub stoppable : is_valid_transition p.state stopping ≡ true
  pub cancels : p.cancel_upstream ≡ true
  pub opened : closed_in p.closed p.cmd_wait_chan ≡ false

-- The command exits while `stopCommand` waits.
abbrev pub exits : Process → List (List Action) → World
exits p rest = record {
  process = p;
  others = [] ∷ [] ∷ [] ∷ (settles stopping ∷ closes ∷ []) ∷ rest;
}

abbrev pub stopped_from : Process → Process
stopped_from p = record p {
  state = stopped;
  closed = p.cmd_wait_chan ∷ p.closed;
  events = (stopping, stopped) ∷ (p.state, stopping) ∷ p.events;
}

stopping_to_stopped : is_valid_transition stopping stopped ≡ true
unfolding is_valid_transition state_eq
stopping_to_stopped = refl

pub closed_self : (c : ℕ) (cs : List ℕ) → closed_in (c ∷ cs) c ≡ true
unfolding closed_in
closed_self c cs = ground arith

-- The process after its command exited in the state stopping.
abbrev exited : Process → Process
exited p = record p {
  state = stopped;
  closed = p.cmd_wait_chan ∷ p.closed;
  events = (stopping, stopped) ∷ p.events;
}

exit_lem :
    (p : Process)
    → p.state ≡ stopping
    → closed_in p.closed p.cmd_wait_chan ≡ false
    → act closes (act (settles stopping) p) ≡ exited p
unfolding act settle_from swap_state state_eq is_valid_transition emit add_waiting force_stopped_on
    close_wait_chan
exit_lem p s o = ground arith

stop_command_lem :
    (p : Process) (rest : List (List Action))
    → p.state ≡ stopping
    → p.cancel_upstream ≡ true
    → closed_in p.closed p.cmd_wait_chan ≡ false
    → stop_command (record { process = p; others = [] ∷ (settles stopping ∷ closes ∷ []) ∷ rest })
      ≡ done tt (record { process = exited p; others = rest })
unfolding stop_command atomically interfered acts wait_until wait_from
stop_command_lem p rest s c o =
    ap (λ b. (if b then wait_until on_chan else return tt) waiting) c
    ∙ rw o (rw (exit_lem p s o) (waits rest))
  where
    on_chan : Process → Bool
    on_chan q = closed_in q.closed p.cmd_wait_chan

    waiting : World
    waiting = record { process = p; others = (settles stopping ∷ closes ∷ []) ∷ rest }

    waits :
        (rest : List (List Action))
        → wait_from on_chan rest (exited p) ≡ done tt (record { process = exited p; others = rest })
    waits [] = rw (closed_self p.cmd_wait_chan p.closed) refl
    waits (b ∷ bs) = rw (closed_self p.cmd_wait_chan p.closed) refl

-- A command that exits when it is told to: `StopImmediately` logs the transitions to stopping and to
-- stopped, returns when the command's channel is closed, and changes nothing else.
pub stop_immediately_lem :
    (p : Process) (rest : List (List Action))
    → Running p
    → stop_immediately (exits p rest) ≡ done tt (record { process = stopped_from p; others = rest })
unfolding stop_immediately atomically interfered acts swap_state emit add_waiting on_none
stop_immediately_lem p rest h = rw h.stoppable (
    rw (state_eq_refl p.state) (
      rw h.stoppable (
        stop_command_lem (record p { state = stopping; events = (p.state, stopping) ∷ p.events })
          rest refl h.cancels h.opened)))

-- The states in which nothing is to be stopped.
abbrev pub AtRest : Process → Type 0
AtRest p = is_valid_transition p.state stopping ≡ false

-- `Stop`, `StopImmediately` and `Shutdown` change nothing where there is nothing to stop.
pub stop-AtRest :
    (p : Process)
    → AtRest p
    → (stop (alone p) ≡ done tt (alone p))
      × (stop_immediately (alone p) ≡ done tt (alone p))
      × (shut_down (alone p) ≡ done tt (alone p))
unfolding stop stop_immediately shut_down atomically interfered
stop-AtRest p h = (rw h refl, rw h refl, rw h refl)

-- The process after a sleep and a wake that took `p` from ready to ready.
abbrev pub slept : Process → Process
slept p = record p {
  state = asleep;
  events = (sleep_pending, asleep) ∷ (ready, sleep_pending) ∷ p.events;
}

pub sleep_lem :
    (config : ModelConfig) (answers : ℕ → Bool) (p : Process)
    → is_sleep_enabled config ≡ true
    → send_requests answers config.sleep_endpoints ≡ true
    → p.state ≡ ready
    → p.in_flight_requests ≡ 0
    → sleep config answers (alone p) ≡ done tt (alone (slept p))
unfolding sleep fall_asleep atomically interfered swap_state emit add_waiting wait_until wait_from
    on_none state_eq is_valid_transition done_sleeping
sleep_lem config answers p en ok s idle = ground arith

abbrev pub woken : Process → Process
woken p = record p { state = ready; events = (waking, ready) ∷ (asleep, waking) ∷ p.events }

pub wake_lem :
    (config : ModelConfig) (answers : ℕ → Bool) (l : Launch) (p : Process)
    → send_requests answers config.wake_endpoints ≡ true
    → p.state ≡ asleep
    → wake config answers l (alone p) ≡ done none (alone (woken p))
unfolding wake own_wake wake_up atomically interfered swap_state emit add_waiting on_none on_swap
    state_eq is_valid_transition done_waking
wake_lem config answers l p ok s = ground arith

-- A sleep and the wake after it, each with requests that all succeed: the process was asleep between
-- them and is ready again, the four transitions are logged, and all else is as it was.
pub wake-sleep :
    (config : ModelConfig) (slept_ok woke_ok : ℕ → Bool) (l : Launch) (p : Process)
    → is_sleep_enabled config ≡ true
    → send_requests slept_ok config.sleep_endpoints ≡ true
    → send_requests woke_ok config.wake_endpoints ≡ true
    → p.state ≡ ready
    → p.in_flight_requests ≡ 0
    → (sleep config slept_ok >> make_ready config woke_ok l) (alone p)
      ≡ done none (
          alone (record p {
            state = ready;
            events =
                (waking, ready)
                ∷ (asleep, waking)
                ∷ (sleep_pending, asleep)
                ∷ (ready, sleep_pending)
                ∷ p.events;
          }))
unfolding make_ready atomically interfered state_eq
wake-sleep config slept_ok woke_ok l p en ok ok' s idle =
    >>=-done (sleep config slept_ok) _ (alone p) (sleep_lem config slept_ok p en ok s idle)
    ∙ wake_lem config woke_ok l (slept p) ok' refl
