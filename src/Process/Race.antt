-- ===== src/Process/Race.antt =====
-- proxy/process.go: `waitForCmd` publishes the state stopped before it closes the channel, and it
-- closes the channel that is current then. A start between the two has installed a new channel.
use llmsnap.Process.Lifecycle.{closed_self}
use llmsnap.Process.Stop.{stop_command}
use llmsnap.Process.{
  Process, starting, closed_in, stopping, settle_from, stopped, swap_state, state_eq,
  is_valid_transition, emit, add_waiting, force_stopped_on, install_command, close_wait_chan,
  force_state,
}
use llmsnap.Prelude.{
  List, ◌≡◌, ◌+◌, suc, true, ◌∷◌, false, [], ◌<◌, arith, refl, Bool, ap, if◌then◌else◌, ◌∙◌,
}
use llmsnap.Process.Schedule.{
  World, return, acts, Action, act, settles, closes, swaps, installs, blocked, atomically,
  interfered, wait_until, wait_from,
}

-- The exit of the first command, with a start in between, and then the exit of the second.
abbrev pub overtaken : List Action
overtaken = settles stopping ∷ swaps stopped starting ∷ installs ∷ closes ∷ []

abbrev pub second_exit : List Action
second_exit = settles starting ∷ closes ∷ []

-- A process that is being stopped: its channel is open, and the next one is new.
pub record BeingStopped (p : Process) : Type 0 where
  pub stops : p.state ≡ stopping
  pub cancels : p.cancel_upstream ≡ true
  pub opened : closed_in p.closed p.cmd_wait_chan ≡ false
  pub fresh : closed_in p.closed p.made ≡ false
  pub older : p.cmd_wait_chan < p.made

abbrev overtook : Process → Process
overtook p = record p {
  state = starting;
  wait_starting = p.wait_starting + 1;
  cmd_wait_chan = p.made;
  made = suc p.made;
  closed = p.made ∷ p.closed;
  events = (stopped, starting) ∷ (stopping, stopped) ∷ p.events;
}

overtaken_lem : (p : Process) → BeingStopped p → acts overtaken p ≡ overtook p
unfolding acts act settle_from swap_state state_eq is_valid_transition emit add_waiting
    force_stopped_on install_command close_wait_chan
overtaken_lem p h = ground (arith, h.stops, h.cancels, h.fresh)

-- The process after the second exit.
abbrev crashed : Process → Process
crashed p = record (overtook p) { state = stopped; panicked = true }

second_exit_lem : (p : Process) → acts second_exit (overtook p) ≡ crashed p
unfolding acts act settle_from force_state close_wait_chan closed_in
second_exit_lem p = ground arith

old_open : (p : Process) → BeingStopped p → closed_in (p.made ∷ p.closed) p.cmd_wait_chan ≡ false
unfolding closed_in
old_open p h = ground (arith, h.opened, h.older)

blocked_lem :
    (p : Process)
    → BeingStopped p
    → stop_command (record { process = p; others = [] ∷ overtaken ∷ second_exit ∷ [] }) ≡ blocked
unfolding stop_command atomically interfered acts wait_until wait_from
blocked_lem p h =
    ap (λ b. (if b then wait_until on_chan else return tt) waiting) h.cancels
    ∙ rw h.opened (
        rw (overtaken_lem p h)
          (rw (old_open p h) (rw (second_exit_lem p) (rw (old_open p h) refl))))
  where
    on_chan : Process → Bool
    on_chan q = closed_in q.closed p.cmd_wait_chan

    waiting : World
    waiting = record { process = p; others = overtaken ∷ second_exit ∷ [] }

-- A start that comes between the two critical sections of the exit: the new command's channel is
-- closed while the command runs, a stop that waits for the old one is blocked for good, and the exit
-- of the new command closes a closed channel, which panics.
pub overtaken_panics :
    (p : Process)
    → BeingStopped p
    → ((acts overtaken p).panicked ≡ p.panicked)
      × (closed_in (acts overtaken p).closed (acts overtaken p).cmd_wait_chan ≡ true)
      × (closed_in (acts overtaken p).closed p.cmd_wait_chan ≡ false)
      × ((acts second_exit (acts overtaken p)).panicked ≡ true)
      × (stop_command (record { process = p; others = [] ∷ overtaken ∷ second_exit ∷ [] })
          ≡ blocked)
overtaken_panics p h = (
  rw (overtaken_lem p h) refl,
  rw (overtaken_lem p h) (closed_self p.made p.closed),
  rw (overtaken_lem p h) (old_open p h),
  rw (overtaken_lem p h) (rw (second_exit_lem p) refl),
  blocked_lem p h,
)
