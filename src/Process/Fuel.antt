-- ===== src/Process/Fuel.antt =====
-- proxy/process.go: the ready check loop ends, since the clock advances past its limit.
use llmsnap.Config.{ModelConfig}
use llmsnap.Process.Sleep.{make_ready, wake, own_wake, wake_up, join_wake}
use llmsnap.Process.Start.{
  ready_check, ready_turn, Launch, Poll, ReadyError, check_health, start, swap_and_start, own_start,
  join_start, launch, abandon_start, become_ready,
}
use llmsnap.Process.Stop.{stop_command, stop_immediately}
use llmsnap.Process.{Process, SwapError, expected_state_mismatch, invalid_state_transition}
use llmsnap.Prelude.{
  Bool, ℕ, ◌≢◌, List, Option, if◌then◌else◌, some, true, ◌*◌, ◌≤◌, arith, false, none, ◌-◌, ◌<◌,
  lt→ltb, refl, ◌+◌, ◌∷◌, suc, [], zero,
}
use native.Mathlib.Decide.{ℕ_discrete}
use llmsnap.Process.Schedule.{
  M, World, ◌>>=◌, return, Outcome, atomically, on_none, on_swap, wait_from, wait_until, exhausted,
  get, modify, Action, done, blocked, acts,
}

-- The method never runs out of fuel, whatever the other goroutines do.
pub record IsFinite {A : Type 0} (m : M A) : Type 0 where
  pub ends : (w : World) → m w ≢ exhausted

return-IsFinite : {A : Type 0} (a : A) → IsFinite (return a)
return-IsFinite a = record { ends = λ w e. cc }

atomically-IsFinite : {A : Type 0} (f : Process → A × Process) → IsFinite (atomically f)
unfolding atomically
atomically-IsFinite f = record { ends = λ w e. cc }

get-IsFinite : {A : Type 0} (f : Process → A) → IsFinite (get f)
get-IsFinite f = atomically-IsFinite (λ p. (f p, p))

modify-IsFinite : (f : Process → Process) → IsFinite (modify f)
modify-IsFinite f = atomically-IsFinite (λ p. (tt, f p))

bind_ends :
    {A B : Type 0} (o : Outcome A) (f : A → M B)
    → o ≢ exhausted
    → ((a : A) → IsFinite (f a))
    → elim o [ done a w ↦ f a w | blocked ↦ blocked | exhausted ↦ exhausted ] ≢ exhausted
bind_ends (done a w) f h k = (k a).ends w
bind_ends blocked f h k = λ e. cc
bind_ends exhausted f h k = absurd (h refl)

bind-IsFinite :
    {A B : Type 0} (m : M A) (f : A → M B)
    → IsFinite m
    → ((a : A) → IsFinite (f a))
    → IsFinite (m >>= f)
bind-IsFinite m f h k = record { ends = λ w. bind_ends (m w) f (h.ends w) k }

if-IsFinite :
    {A : Type 0} (b : Bool) (m n : M A) → IsFinite m → IsFinite n → IsFinite (if b then m else n)
if-IsFinite true m n h k = h
if-IsFinite false m n h k = k

on_none-IsFinite :
    {E A : Type 0} (e : Option E) (m : M A) (k : E → M A)
    → IsFinite m
    → ((e : E) → IsFinite (k e))
    → IsFinite (on_none e m k)
unfolding on_none
on_none-IsFinite none m k h g = h
on_none-IsFinite (some e) m k h g = g e

on_swap-IsFinite :
    {A : Type 0} (e : Option SwapError) (m n k : M A)
    → IsFinite m
    → IsFinite n
    → IsFinite k
    → IsFinite (on_swap e m n k)
unfolding on_swap
on_swap-IsFinite none m n k g h i = g
on_swap-IsFinite (some expected_state_mismatch) m n k g h i = h
on_swap-IsFinite (some invalid_state_transition) m n k g h i = i

wait_from_ends :
    (test : Process → Bool) (bs : List (List Action)) (p : Process)
    → wait_from test bs p ≢ exhausted
unfolding wait_from
wait_from_ends test [] p = ground arith
wait_from_ends test (b ∷ bs) p = ground (arith, wait_from_ends test bs (acts b p))

wait_until-IsFinite : (test : Process → Bool) → IsFinite (wait_until test)
unfolding wait_until
wait_until-IsFinite test = record { ends = λ w. wait_from_ends test w.others w.process }

ruleset finite = (
  return-IsFinite, get-IsFinite, modify-IsFinite, atomically-IsFinite, bind-IsFinite, if-IsFinite,
  on_none-IsFinite, on_swap-IsFinite, wait_until-IsFinite,
)

stop_command-IsFinite : IsFinite stop_command
unfolding stop_command
stop_command-IsFinite = search finite depth 9

stop_immediately-IsFinite : IsFinite stop_immediately
unfolding stop_immediately
stop_immediately-IsFinite = search (finite, stop_command-IsFinite) depth 12

timed_out_turn :
    (max : ℕ) (poll : Poll) (rest : M (Option ReadyError))
    → max < poll.elapsed
    → IsFinite (ready_turn max poll rest)
unfolding ready_turn
timed_out_turn max poll rest h =
    rw (lt→ltb max poll.elapsed h) (search (finite, stop_command-IsFinite) depth 12)

ready_turn-IsFinite :
    (max : ℕ) (poll : Poll) (rest : M (Option ReadyError))
    → IsFinite rest
    → IsFinite (ready_turn max poll rest)
unfolding ready_turn
ready_turn-IsFinite max poll rest h = search (finite, stop_command-IsFinite) depth 12

-- Some turn `j` within the fuel finds the limit passed.
ready_check-IsFinite :
    (max : ℕ) (polls : ℕ → Poll) (fuel k j : ℕ)
    → k ≤ j
    → j < k + fuel
    → max < (polls j).elapsed
    → IsFinite (ready_check max polls fuel k)
unfolding ready_check
ready_check-IsFinite max polls zero k j lo hi late = absurd (omega arith)
ready_check-IsFinite max polls (suc fuel) k j lo hi late = elim (ℕ_discrete k j) [
  | yes e ↦ record {
    ends = (timed_out_turn max (polls k) (ready_check max polls fuel (suc k)) (rw e late)).ends;
  }
  | no ne ↦ record {
    ends =
        (ready_turn-IsFinite max (polls k) _
          (ready_check-IsFinite max polls fuel (suc k) j (omega arith) (omega arith) late)).ends;
  }
]

-- A clock that advances by `tick` at least in each turn, and fuel for the turns up to the limit.
pub record Timely (tick : ℕ) (l : Launch) : Type 0 where
  pub advances : (k : ℕ) → k * tick ≤ (l.polls k).elapsed
  pub enough : l.max_duration < (l.fuel - 1) * tick

fuel_pos : (fuel tick max : ℕ) → max < (fuel - 1) * tick → fuel - 1 < 0 + fuel
fuel_pos zero tick max h = absurd (grind arith)
fuel_pos (suc f) tick max h = omega arith

module _ (tick : ℕ) (l : Launch) (timely : Timely tick l) where
  polls-IsFinite : IsFinite (ready_check l.max_duration l.polls l.fuel 0)
  polls-IsFinite =
      ready_check-IsFinite l.max_duration l.polls l.fuel 0 (l.fuel - 1) (omega arith)
        (fuel_pos l.fuel tick l.max_duration timely.enough)
        (omega (arith, timely.enough, timely.advances (l.fuel - 1)))

  check_health-IsFinite : IsFinite (check_health l)
  unfolding check_health
  check_health-IsFinite = search (finite, polls-IsFinite) depth 9

  start-IsFinite : (config : ModelConfig) → IsFinite (start config l)
  unfolding start swap_and_start own_start join_start launch abandon_start become_ready
  start-IsFinite config = search (finite, check_health-IsFinite) depth 30

  wake-IsFinite : (config : ModelConfig) (answers : ℕ → Bool) → IsFinite (wake config answers l)
  unfolding wake own_wake wake_up join_wake
  wake-IsFinite config answers = search (finite, start-IsFinite, stop_immediately-IsFinite) depth 30

  make_ready-IsFinite :
      (config : ModelConfig) (answers : ℕ → Bool) → IsFinite (make_ready config answers l)
  unfolding make_ready
  make_ready-IsFinite config answers = search (finite, start-IsFinite, wake-IsFinite) depth 12

-- Beside any other goroutines the health check ends: with a clock that advances by `tick` at least in
-- each turn, and the turns that reach the configured limit, `makeReady` never runs out of turns.
pub make_ready-ends :
    (tick : ℕ) (config : ModelConfig) (answers : ℕ → Bool) (l : Launch) (w : World)
    → Timely tick l
    → make_ready config answers l w ≢ exhausted
make_ready-ends tick config answers l w timely =
    (make_ready-IsFinite tick l timely config answers).ends w
