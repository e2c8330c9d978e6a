-- ===== src/Process.antt =====
-- proxy/process.go: the state of one upstream process, and the critical sections over it.
pub mod Swap
pub mod Schedule
pub mod Stop
pub mod Start
pub mod Sleep
pub mod Request
pub mod Evolves
pub mod Frame
pub mod Methods
pub mod Triple
pub mod History
pub mod Balance
pub mod Ready
pub mod Fuel
pub mod Lifecycle
pub mod Race
pub mod Replies
pub mod Outside
pub mod Loading
pub mod Streamed
pub mod Calm
pub mod Settled
pub mod Answered
pub mod Returns
mod Tests
use llmsnap.Prelude.{
  ℕ, suc, ◌+◌, ◌==◌, Bool, true, false, ◌||◌, not, List, [], ◌∷◌, Option, none, some, if◌then◌else◌,
}

pub data ProcessState : Type 0 where
  stopped starting ready stopping shutdown sleep_pending asleep waking : ProcessState

-- Go's `==` on the state.
unfoldable pub state_eq : ProcessState → ProcessState → Bool
state_eq stopped stopped = true
state_eq starting starting = true
state_eq ready ready = true
state_eq stopping stopping = true
state_eq shutdown shutdown = true
state_eq sleep_pending sleep_pending = true
state_eq asleep asleep = true
state_eq waking waking = true
state_eq _ _ = false

unfoldable pub is_valid_transition : ProcessState → ProcessState → Bool
is_valid_transition stopped to = state_eq to starting
is_valid_transition starting to = state_eq to ready || state_eq to stopping || state_eq to stopped
is_valid_transition ready to = state_eq to stopping || state_eq to sleep_pending
is_valid_transition stopping to = state_eq to stopped || state_eq to shutdown
is_valid_transition shutdown to = false
is_valid_transition sleep_pending to =
    state_eq to asleep || state_eq to stopping || state_eq to stopped
is_valid_transition asleep to = state_eq to waking || state_eq to stopping
is_valid_transition waking to = state_eq to ready || state_eq to stopping || state_eq to stopped

-- The shared fields of `Process`. A wait group is its counter, the semaphore is the number of slots
-- taken, and a channel is its number: `made` were made, and `closed` lists those closed, newest first.
-- `events` are the state changes emitted, old state and new, newest first.
pub record Process : Type 0 where
  pub state : ProcessState
  pub wait_starting : ℕ
  pub wait_sleeping : ℕ
  pub wait_waking : ℕ
  pub in_flight_requests : ℕ
  pub in_flight_requests_count : ℕ
  pub concurrency_limit_semaphore : ℕ
  pub cancel_upstream : Bool
  pub cmd_wait_chan : ℕ
  pub made : ℕ
  pub closed : List ℕ
  pub failed_start_count : ℕ
  pub last_request_handled : ℕ
  pub panicked : Bool
  pub events : List (ProcessState × ProcessState)

-- `NewProcess`: the first channel is number 0, and no command runs.
abbrev pub new_process : Process
new_process = record {
  state = stopped;
  wait_starting = 0;
  wait_sleeping = 0;
  wait_waking = 0;
  in_flight_requests = 0;
  in_flight_requests_count = 0;
  concurrency_limit_semaphore = 0;
  cancel_upstream = false;
  cmd_wait_chan = 0;
  made = 1;
  closed = [];
  failed_start_count = 0;
  last_request_handled = 0;
  panicked = false;
  events = [];
}

pub data SwapError : Type 0 where
  expected_state_mismatch invalid_state_transition : SwapError

-- The wait group of a transitional state.
unfoldable pub add_waiting : ProcessState → Process → Process
add_waiting starting p = record p { wait_starting = p.wait_starting + 1 }
add_waiting sleep_pending p = record p { wait_sleeping = p.wait_sleeping + 1 }
add_waiting waking p = record p { wait_waking = p.wait_waking + 1 }
add_waiting _ p = p

-- `event.Emit(ProcessStateChangeEvent{...})`.
unfoldable pub emit : ProcessState → ProcessState → Process → Process
emit old new p = record p { events = (old, new) ∷ p.events }

-- `swapState`: the state it returns, its error, and the process.
unfoldable pub swap_state :
    ProcessState → ProcessState → Process → (ProcessState × Option SwapError) × Process
swap_state expected new p =
    if not (state_eq p.state expected)
    then ((p.state, some expected_state_mismatch), p)
    else if not (is_valid_transition p.state new)
    then ((p.state, some invalid_state_transition), p)
    else ((new, none), emit expected new (add_waiting new (record p { state = new })))

unfoldable pub force_state : ProcessState → Process → Process
force_state new p = record p { state = new }

unfoldable pub closed_in : List ℕ → ℕ → Bool
closed_in [] n = false
closed_in (c ∷ cs) n = c == n || closed_in cs n

-- `waitForCmd` reads the state, then sets the new one by what it read (a swap that fails and the
-- force after it are taken as one step), and then closes the channel. Closing a channel
-- that is closed panics.
unfoldable pub force_stopped_on : Option SwapError → Process → Process
force_stopped_on none p = p
force_stopped_on (some e) p = force_state stopped p

unfoldable pub settle_from : ProcessState → Process → Process
settle_from stopping p = let r = swap_state stopping stopped p in force_stopped_on r.0.1 r.1
settle_from _ p = force_state stopped p

unfoldable pub close_wait_chan : Process → Process
close_wait_chan p =
    if closed_in p.closed p.cmd_wait_chan
    then record p { panicked = true }
    else record p { closed = p.cmd_wait_chan ∷ p.closed }

-- `start`, under `cmdMutex`: a new command gets its cancel function and a channel.
unfoldable pub install_command : Process → Process
install_command p = record p { cancel_upstream = true; cmd_wait_chan = p.made; made = suc p.made }
