-- ===== src/Process/Schedule.antt =====
-- How the methods of a process run beside other goroutines: a method is a chain of critical
-- sections, and before each of them the other goroutines take any number of steps of their own.
use llmsnap.Prelude.{
  ℕ, ◌+◌, ◌-◌, Bool, true, false, Option, none, some, ltb, List, [], ◌∷◌, if◌then◌else◌, ◌==◌, ◌≡◌,
  ap,
}
use llmsnap.Process.{
  ProcessState, Process, SwapError, expected_state_mismatch, invalid_state_transition, swap_state,
  force_state, settle_from, close_wait_chan, install_command,
}

-- One step of another goroutine.
pub data Action : Type 0 where
  swaps : ProcessState → ProcessState → Action
  forces : ProcessState → Action
  installs closes : Action
  settles : ProcessState → Action
  fails resets : Action
  starting_done sleeping_done waking_done : Action
  flight_begins flight_ends counts discounts releases : Action
  handled acquires : ℕ → Action

-- `WaitGroup.Done`: below zero it panics.
unfoldable pub done_starting : Process → Process
done_starting p =
    if p.wait_starting == 0
    then record p { panicked = true }
    else record p { wait_starting = p.wait_starting - 1 }

unfoldable pub done_sleeping : Process → Process
done_sleeping p =
    if p.wait_sleeping == 0
    then record p { panicked = true }
    else record p { wait_sleeping = p.wait_sleeping - 1 }

unfoldable pub done_waking : Process → Process
done_waking p =
    if p.wait_waking == 0
    then record p { panicked = true }
    else record p { wait_waking = p.wait_waking - 1 }

-- `failedStartCount`.
unfoldable pub fail_start : Process → Process
fail_start p = record p { failed_start_count = p.failed_start_count + 1 }

unfoldable pub reset_failures : Process → Process
reset_failures p = record p { failed_start_count = 0 }

-- `inFlightRequests.Add(1)` and `.Done()`, and the atomic counter beside the wait group.
unfoldable pub add_in_flight : Process → Process
add_in_flight p = record p { in_flight_requests = p.in_flight_requests + 1 }

unfoldable pub done_in_flight : Process → Process
done_in_flight p =
    if p.in_flight_requests == 0
    then record p { panicked = true }
    else record p { in_flight_requests = p.in_flight_requests - 1 }

unfoldable pub count_request : Process → Process
count_request p = record p { in_flight_requests_count = p.in_flight_requests_count + 1 }

unfoldable pub discount_request : Process → Process
discount_request p = record p { in_flight_requests_count = p.in_flight_requests_count - 1 }

unfoldable pub set_last_request_handled : ℕ → Process → Process
set_last_request_handled now p = record p { last_request_handled = now }

-- The semaphore: a send that does not block, and the receive that gives the slot back.
unfoldable pub try_acquire : ℕ → Process → Bool × Process
try_acquire limit p =
    if ltb p.concurrency_limit_semaphore limit
    then (true, record p { concurrency_limit_semaphore = p.concurrency_limit_semaphore + 1 })
    else (false, p)

unfoldable pub release_slot : Process → Process
release_slot p = record p { concurrency_limit_semaphore = p.concurrency_limit_semaphore - 1 }

unfoldable pub act : Action → Process → Process
act (swaps e n) p = (swap_state e n p).1
act (forces s) p = force_state s p
act installs p = install_command p
act fails p = fail_start p
act resets p = reset_failures p
act (settles read) p = settle_from read p
act closes p = close_wait_chan p
act starting_done p = done_starting p
act sleeping_done p = done_sleeping p
act waking_done p = done_waking p
act flight_begins p = add_in_flight p
act flight_ends p = done_in_flight p
act counts p = count_request p
act discounts p = discount_request p
act releases p = release_slot p
act (handled now) p = set_last_request_handled now p
act (acquires limit) p = (try_acquire limit p).1

unfoldable pub acts : List Action → Process → Process
acts [] p = p
acts (a ∷ as') p = acts as' (act a p)

-- The process, and what the others do before each of the method's next critical sections. When the
-- list is at its end the others are at rest.
pub record World : Type 0 where
  pub process : Process
  pub others : List (List Action)

-- `blocked`: the others are at rest and the condition waited for does not hold. `exhausted`: the
-- fuel of a polling loop is at its end.
pub data Outcome {ℓ} (A : Type ℓ) : Type ℓ where
  done : A → World → Outcome A
  blocked exhausted : Outcome A

abbrev pub M {ℓ} : Type ℓ → Type ℓ
M A = World → Outcome A

infixl 5 ◌>>=◌ ◌>>◌
abbrev pub ◌>>=◌ {ℓ κ} : {A : Type ℓ} {B : Type κ} → M A → (A → M B) → M B
◌>>=◌ m f w = elim (m w) [ done a w' ↦ f a w' | blocked ↦ blocked | exhausted ↦ exhausted ]

abbrev pub ◌>>◌ {ℓ κ} : {A : Type ℓ} {B : Type κ} → M A → M B → M B
m >> k = m >>= λ _. k

abbrev pub return {ℓ} : {A : Type ℓ} → A → M A
return a w = done a w

-- A bind whose first part is done goes on with the rest.
pub >>=-done {ℓ κ} :
    {A : Type ℓ} {B : Type κ} (m : M A) (f : A → M B) (w : World) {a : A} {v : World}
    → m w ≡ done a v
    → (m >>= f) w ≡ f a v
>>=-done m f w e =
    ap (λ o. elim o [ done a w' ↦ f a w' | blocked ↦ blocked | exhausted ↦ exhausted ]) e

-- A branch on a Go `error`: what runs at `nil`, and what runs at an error.
unfoldable pub on_none {ℓ κ} : {E : Type ℓ} {A : Type κ} → Option E → M A → (E → M A) → M A
on_none none m k = m
on_none (some e) m k = k e

-- A branch on the error of `swapState`.
unfoldable pub on_swap {ℓ} : {A : Type ℓ} → Option SwapError → M A → M A → M A → M A
on_swap none swapped mismatch invalid = swapped
on_swap (some expected_state_mismatch) swapped mismatch invalid = mismatch
on_swap (some invalid_state_transition) swapped mismatch invalid = invalid

unfoldable pub interfered : World → World
interfered w = elim w.others [
  | [] ↦ w
  | b ∷ bs ↦ record { process = acts b w.process; others = bs }
]

-- A critical section, after what the others do before it.
unfoldable pub atomically {ℓ} : {A : Type ℓ} → (Process → A × Process) → M A
atomically f w =
    let v = interfered w in
    let r = f v.process in done r.0 (record { process = r.1; others = v.others })

abbrev pub get {ℓ} : {A : Type ℓ} → (Process → A) → M A
get f = atomically (λ p. (f p, p))

abbrev pub modify : (Process → Process) → M (Unit {0})
modify f = atomically (λ p. (tt, f p))

unfoldable pub wait_from : (Process → Bool) → List (List Action) → Process → Outcome (Unit {0})
wait_from test [] p = if test p then done tt (record { process = p; others = [] }) else blocked
wait_from test (b ∷ bs) p =
    if test p
    then done tt (record { process = p; others = b ∷ bs })
    else wait_from test bs (acts b p)

-- A wait on a wait group or a channel: the others run until the condition holds.
unfoldable pub wait_until : (Process → Bool) → M (Unit {0})
wait_until test w = wait_from test w.others w.process
