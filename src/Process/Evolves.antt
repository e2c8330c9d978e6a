-- ===== src/Process/Evolves.antt =====
-- The log of state changes and the channels: the relation `Evolves` between the process before and
-- after a step of any goroutine.
use llmsnap.Prelude.{
  ℕ, suc, ◌≤◌, ◌≡◌, refl, Bool, true, ◌&&◌, List, [], ◌∷◌, Option, none, some, arith, if◌then◌else◌,
  inl, inr,
}
use llmsnap.Process.{
  ProcessState, Process, state_eq, is_valid_transition, swap_state, force_state, close_wait_chan,
  install_command, closed_in, SwapError, emit, add_waiting, stopped, starting, stopping,
  force_stopped_on, settle_from,
}
use llmsnap.Process.Swap.{swap_state_cases}
use llmsnap.Process.Schedule.{
  Action, fails, resets, fail_start, reset_failures, swaps, forces, installs, settles, closes,
  starting_done, sleeping_done, waking_done, flight_begins, flight_ends, counts, discounts,
  releases, handled, acquires, act, done_starting, done_sleeping, done_waking, add_in_flight,
  done_in_flight, count_request, discount_request, set_last_request_handled, try_acquire,
  release_slot,
}

-- Every transition of a log is a valid one.
unfoldable pub all_valid : List (ProcessState × ProcessState) → Bool
all_valid [] = true
all_valid ((old, new) ∷ es) = is_valid_transition old new && all_valid es

-- How often a log holds a transition.
unfoldable pub emitted : ProcessState → ProcessState → List (ProcessState × ProcessState) → ℕ
emitted s t [] = 0
emitted s t ((old, new) ∷ es) =
    if state_eq old s && state_eq new t then suc (emitted s t es) else emitted s t es

pub record Evolves (p q : Process) : Type 0 where
  pub valid : all_valid p.events ≡ true → all_valid q.events ≡ true
  pub grows : (s t : ProcessState) → emitted s t p.events ≤ emitted s t q.events
  pub keeps : (c : ℕ) → closed_in p.closed c ≡ true → closed_in q.closed c ≡ true
  pub made : p.made ≤ q.made
  pub panics : p.panicked ≡ true → q.panicked ≡ true

pub Evolves-refl : (p : Process) → Evolves p p
Evolves-refl p = record {
  valid = λ h. h;
  grows = λ s t. omega arith;
  keeps = λ c h. h;
  made = omega arith;
  panics = λ h. h;
}

pub Evolves-trans : (p q r : Process) → Evolves p q → Evolves q r → Evolves p r
Evolves-trans p q r e f = record {
  valid = λ h. f.valid (e.valid h);
  grows = λ s t. omega (arith, e.grows s t, f.grows s t);
  keeps = λ c h. f.keeps c (e.keeps c h);
  made = omega (arith, e.made, f.made);
  panics = λ h. f.panics (e.panics h);
}

-- A change that leaves the log, the channels and the panic alone.
abbrev pub Same : Process → Process → Type 0
Same p q =
    (q.events ≡ p.events)
    × (q.closed ≡ p.closed)
    × (p.made ≤ q.made)
    × (p.panicked ≡ true → q.panicked ≡ true)

pub Same-Evolves : (p q : Process) → Same p q → Evolves p q
Same-Evolves p q h = record {
  valid = λ v. rw h.0 v;
  grows = λ s t. rw h.0 (omega arith);
  keeps = λ c v. rw h.1 v;
  made = h.2;
  panics = h.3;
}

-- A valid transition that is logged, over a change that leaves the log alone.
emit-Evolves :
    (e n : ProcessState) (p q : Process)
    → is_valid_transition e n ≡ true
    → Same p q
    → Evolves p (emit e n q)
unfolding emit all_valid emitted
emit-Evolves e n p q v h = record {
  valid = λ a. rw (v, h.0) a;
  grows = λ s t. ground (arith, h.0);
  keeps = λ c w. rw h.1 w;
  made = h.2;
  panics = h.3;
}

add_waiting-Same :
    (s : ProcessState) (p : Process) → Same p (add_waiting s (record p { state = s }))
unfolding add_waiting
add_waiting-Same starting p = (refl, refl, omega arith, λ h. h)
add_waiting-Same _ p = (refl, refl, omega arith, λ h. h)

install_command-Same : (p : Process) → Same p (install_command p)
unfolding install_command
install_command-Same p = (refl, refl, omega arith, λ h. h)

done_starting-Same : (p : Process) → Same p (done_starting p)
unfolding done_starting
done_starting-Same p = ground arith

done_sleeping-Same : (p : Process) → Same p (done_sleeping p)
unfolding done_sleeping
done_sleeping-Same p = ground arith

done_waking-Same : (p : Process) → Same p (done_waking p)
unfolding done_waking
done_waking-Same p = ground arith

failures-Same : (p : Process) → Same p (fail_start p) × Same p (reset_failures p)
unfolding fail_start reset_failures
failures-Same p = ground arith

flight-Same :
    (p : Process)
    → (Same p (add_in_flight p))
      × (Same p (done_in_flight p))
      × (Same p (count_request p))
      × (Same p (discount_request p))
      × (Same p (release_slot p))
unfolding add_in_flight done_in_flight count_request discount_request release_slot
flight-Same p = ground arith

set_last_request_handled-Same : (now : ℕ) (p : Process) → Same p (set_last_request_handled now p)
unfolding set_last_request_handled
set_last_request_handled-Same now p = ground arith

try_acquire-Same : (limit : ℕ) (p : Process) → Same p (try_acquire limit p).1
unfolding try_acquire
try_acquire-Same limit p = ground arith

pub swap_state-Evolves : (e n : ProcessState) (p : Process) → Evolves p (swap_state e n p).1
swap_state-Evolves e n p = elim (swap_state_cases e n p) [
  | inl s ↦ rw s.2 (emit-Evolves e n p _ s.1 (add_waiting-Same n p))
  | inr s ↦ rw s.1 (Evolves-refl p)
]

pub force_state-Evolves : (s : ProcessState) (p : Process) → Evolves p (force_state s p)
unfolding force_state
force_state-Evolves s p = Same-Evolves p _ (refl, refl, omega arith, λ h. h)

force_stopped_on-Evolves :
    (e : Option SwapError) (p q : Process) → Evolves p q → Evolves p (force_stopped_on e q)
unfolding force_stopped_on
force_stopped_on-Evolves none p q h = h
force_stopped_on-Evolves (some e) p q h =
    Evolves-trans p q (force_state stopped q) h (force_state-Evolves stopped q)

settle_from-Evolves : (s : ProcessState) (p : Process) → Evolves p (settle_from s p)
unfolding settle_from
settle_from-Evolves stopping p =
    force_stopped_on-Evolves _ p _ (swap_state-Evolves stopping stopped p)
settle_from-Evolves _ p = force_state-Evolves stopped p

close_wait_chan-Evolves : (p : Process) → Evolves p (close_wait_chan p)
unfolding close_wait_chan closed_in
close_wait_chan-Evolves p = record {
  valid = λ h. ground arith;
  grows = λ s t. ground arith;
  keeps = λ c h. ground arith;
  made = ground arith;
  panics = λ h. ground arith;
}

-- Whatever step another goroutine takes.
pub act-Evolves : (a : Action) (p : Process) → Evolves p (act a p)
unfolding act
act-Evolves (swaps e n) p = swap_state-Evolves e n p
act-Evolves (forces s) p = force_state-Evolves s p
act-Evolves (settles read) p = settle_from-Evolves read p
act-Evolves closes p = close_wait_chan-Evolves p
act-Evolves fails p = Same-Evolves p _ (failures-Same p).0
act-Evolves resets p = Same-Evolves p _ (failures-Same p).1
act-Evolves installs p = Same-Evolves p _ (install_command-Same p)
act-Evolves starting_done p = Same-Evolves p _ (done_starting-Same p)
act-Evolves sleeping_done p = Same-Evolves p _ (done_sleeping-Same p)
act-Evolves waking_done p = Same-Evolves p _ (done_waking-Same p)
act-Evolves flight_begins p = Same-Evolves p _ (flight-Same p).0
act-Evolves flight_ends p = Same-Evolves p _ (flight-Same p).1
act-Evolves counts p = Same-Evolves p _ (flight-Same p).2
act-Evolves discounts p = Same-Evolves p _ (flight-Same p).3
act-Evolves releases p = Same-Evolves p _ (flight-Same p).4
act-Evolves (handled now) p = Same-Evolves p _ (set_last_request_handled-Same now p)
act-Evolves (acquires limit) p = Same-Evolves p _ (try_acquire-Same limit p)
