-- ===== src/Process/Calm.antt =====
-- proxy/process.go: the methods of a process whose command exits when it is told to, where no other
-- goroutine interferes.
use llmsnap.Process.Start.{Launch, ReadyError, start}
use llmsnap.Config.{ModelConfig}
use llmsnap.Process.Lifecycle.{
  Running, exits, alone, stopped_from, stop_immediately_lem, closed_self,
}
use llmsnap.Process.Schedule.{
  Action, World, atomically, interfered, acts, settles, act, closes, wait_until, wait_from, done,
  on_none, done_sleeping, on_swap, done_waking,
}
use llmsnap.Process.Sleep.{
  sleep, fall_asleep, is_sleep_enabled, send_requests, wake, own_wake, wake_up,
}
use llmsnap.Process.Stop.{shut_down, stop, stop_command}
use llmsnap.Process.{
  Process, is_valid_transition, shutdown, state_eq, stopped, ready, stopping, asleep, sleep_pending,
  swap_state, emit, add_waiting, closed_in, settle_from, force_state, close_wait_chan, waking,
}
use llmsnap.Prelude.{
  refl, List, Option, ◌≡◌, [], ◌++◌, ◌∷◌, inl, ◌⊎◌, ap, inr, true, false, arith, ℕ, Bool, ◌+◌,
}

-- The command exits once the method has run some critical sections and waits for it.
abbrev pub told : List (List Action) → Process → World
told before p = record { process = p; others = before ++ (exits p []).others }

-- Up: ready or asleep, with a command that runs under its own channel.
pub record IsUp (p : Process) : Type 0 where
  pub state : (p.state ≡ ready) ⊎ (p.state ≡ asleep)
  pub cancels : p.cancel_upstream ≡ true
  pub opened : closed_in p.closed p.cmd_wait_chan ≡ false

pub up-Running : (p : Process) → IsUp p → Running p
unfolding is_valid_transition state_eq
up-Running p h = record {
  stoppable = elim h.state [
    | inl e ↦ ap (λ s. is_valid_transition s stopping) e
    | inr e ↦ ap (λ s. is_valid_transition s stopping) e
  ];
  cancels = h.cancels;
  opened = h.opened;
}

pub stop-told :
    (p : Process)
    → Running p
    → p.in_flight_requests ≡ 0
    → stop (told ([] ∷ []) p) ≡ done tt (alone (stopped_from p))
unfolding stop atomically interfered acts wait_until wait_from
stop-told p h idle = ground (arith, h.stoppable, idle, stop_immediately_lem p [] h)

-- The process after a shutdown of one that is up.
abbrev pub shut_from : Process → Process
shut_from p = record p { state = shutdown; closed = p.cmd_wait_chan ∷ p.closed }

abbrev pub shutting : Process → World
shutting p = record { process = p; others = [] ∷ [] ∷ (settles p.state ∷ closes ∷ []) ∷ [] }

pub shut_down-told : (p : Process) → IsUp p → shut_down (shutting p) ≡ done tt (alone (shut_from p))
unfolding shut_down stop_command atomically interfered acts act wait_until wait_from settle_from
    force_state close_wait_chan is_valid_transition state_eq
shut_down-told p h =
    ground (arith, h.state, h.cancels, h.opened, closed_self p.cmd_wait_chan p.closed)

-- The process after a sleep whose requests fail, or a wake whose requests fail, up to the stop.
abbrev pub slept_badly : Process → Process
slept_badly p = record p {
  state = stopped;
  closed = p.cmd_wait_chan ∷ p.closed;
  events = (stopping, stopped) ∷ (sleep_pending, stopping) ∷ (ready, sleep_pending) ∷ p.events;
}

pub sleep-fails :
    (config : ModelConfig) (answers : ℕ → Bool) (p : Process)
    → is_sleep_enabled config ≡ true
    → send_requests answers config.sleep_endpoints ≡ false
    → p.state ≡ ready
    → IsUp p
    → p.in_flight_requests ≡ 0
    → sleep config answers (told ([] ∷ [] ∷ []) p) ≡ done tt (alone (slept_badly p))
unfolding sleep fall_asleep atomically interfered acts swap_state emit add_waiting wait_until
    wait_from on_none state_eq is_valid_transition done_sleeping
sleep-fails config answers p en bad s h idle =
    ground (arith, en, bad, s, idle, stop_immediately_lem pending [] pending-Running)
  where
    pending : Process
    pending = record p {
      state = sleep_pending;
      wait_sleeping = p.wait_sleeping + 1;
      events = (ready, sleep_pending) ∷ p.events;
    }

    pending-Running : Running pending
    pending-Running = record { stoppable = refl; cancels = h.cancels; opened = h.opened }

-- The process after a wake whose requests fail, up to the start that follows.
abbrev pub woken_badly : Process → Process
woken_badly p = record p {
  state = stopped;
  wait_waking = p.wait_waking + 1;
  closed = p.cmd_wait_chan ∷ p.closed;
  events = (stopping, stopped) ∷ (waking, stopping) ∷ (asleep, waking) ∷ p.events;
}

-- A wake whose requests fail ends as the start does that follows the stop.
pub wake-fails :
    (config : ModelConfig) (answers : ℕ → Bool) (l : Launch) (p q : Process) (e : Option ReadyError)
    → send_requests answers config.wake_endpoints ≡ false
    → p.state ≡ asleep
    → IsUp p
    → q.wait_waking ≡ p.wait_waking + 1
    → start config l (alone (woken_badly p)) ≡ done e (alone q)
    → wake config answers l (told ([] ∷ []) p)
      ≡ done e (alone (record q { wait_waking = p.wait_waking }))
unfolding wake own_wake wake_up atomically interfered acts swap_state emit add_waiting on_none
    on_swap state_eq is_valid_transition done_waking
wake-fails config answers l p q e bad s h counted starts =
    ground (arith, bad, s, counted, starts, stop_immediately_lem waiting [] waiting-Running)
  where
    waiting : Process
    waiting = record p {
      state = waking;
      wait_waking = p.wait_waking + 1;
      events = (asleep, waking) ∷ p.events;
    }

    waiting-Running : Running waiting
    waiting-Running = record { stoppable = refl; cancels = h.cancels; opened = h.opened }
