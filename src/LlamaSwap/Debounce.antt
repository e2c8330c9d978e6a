-- ===== src/LlamaSwap/Debounce.antt =====
-- llama-swap.go, `debounce`: a function that runs once the calls have paused.
use mathlib.Core.List.{append_assoc}
use llmsnap.Prelude.{
  false, true, Option, ℕ, List, some, if◌then◌else◌, none, ◌+◌, ◌∷◌, [], leb, ◌++◌, ◌≡◌, refl, ◌∙◌,
  Bool,
}

-- When the timer fires, if it is set, and the times at which the function ran.
pub record Timer : Type 0 where
  pub deadline : Option ℕ
  pub runs : List ℕ

unfoldable pub fire : Option ℕ → Timer → Timer
fire none timer = timer
fire (some at) timer = record timer { deadline = none; runs = timer.runs ++ (at ∷ []) }

unfoldable pub fire_by : Option ℕ → ℕ → Timer → Timer
fire_by none now timer = timer
fire_by (some at) now timer = if leb at now then fire (some at) timer else timer

-- A call at the time `now`: a timer that has not fired yet is stopped, and a new one is set.
unfoldable pub debounce : ℕ → ℕ → Timer → Timer
debounce interval now timer = record (fire_by timer.deadline now timer) {
  deadline = some (now + interval);
}

-- The calls at these times, and the time after them.
unfoldable pub debounced : ℕ → List ℕ → Timer → Timer
debounced interval [] timer = fire timer.deadline timer
debounced interval (now ∷ times) timer = debounced interval times (debounce interval now timer)

-- The ends of the pauses: a call with no other one in the interval after it.
abbrev pub pauses : ℕ → List ℕ → List ℕ
pauses interval [] = []
pauses interval (c ∷ []) = (c + interval) ∷ []
pauses interval (c ∷ d ∷ times) =
    let rest = pauses interval (d ∷ times) in
    if leb (c + interval) d then (c + interval) ∷ rest else rest

debounced-pauses :
    (interval c : ℕ) (times ran : List ℕ)
    → (debounced interval times (record { deadline = some (c + interval); runs = ran })).runs
      ≡ ran ++ pauses interval (c ∷ times)
unfolding debounced debounce fire_by fire
debounced-pauses interval c [] ran = refl
debounced-pauses interval c (d ∷ times) ran =
    by_test (leb (c + interval) d) (debounced-pauses interval d times)
  where
    set : Timer
    set = record { deadline = some (c + interval); runs = ran }

    by_test :
        (b : Bool)
        → ((ran' : List ℕ)
            → (debounced interval times
                (record { deadline = some (d + interval); runs = ran' })).runs
              ≡ ran' ++ pauses interval (d ∷ times))
        → (debounced interval times (record (if b then fire (some (c + interval)) set else set) {
          deadline = some (d + interval);
        })).runs
          ≡ ran
            ++ (if b
                then (c + interval) ∷ pauses interval (d ∷ times)
                else pauses interval (d ∷ times))
    by_test true later =
        later (ran ++ ((c + interval) ∷ []))
        ∙ append_assoc ran ((c + interval) ∷ []) (pauses interval (d ∷ times))
    by_test false later = later ran

-- Calls of a debounced function at given times, in turn, and time enough after them: the function runs
-- once for each call that is not followed by another before the interval has passed, at the end of that
-- interval, and not otherwise.
pub debounced_lem :
    (interval : ℕ) (times : List ℕ)
    → (debounced interval times (record { deadline = none; runs = [] })).runs
      ≡ pauses interval times
unfolding debounced debounce fire_by fire
debounced_lem interval [] = refl
debounced_lem interval (c ∷ times) = debounced-pauses interval c times []
