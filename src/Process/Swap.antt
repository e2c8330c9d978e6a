-- ===== src/Process/Swap.antt =====
-- proxy/process.go: `isValidTransition` and `swapState`, the laws of one compare and swap.
use mathlib.Core.Bool.{true≢false}
use llmsnap.Prelude.{
  sym, ◌∙◌, ◌≡◌, refl, true, false, List, [], ◌∷◌, none, arith, ◌⊎◌, inl, inr, ◌≢◌, Bool-cases, sym,
  ◌∙◌,
}
use llmsnap.Process.{
  ProcessState, Process, state_eq, is_valid_transition, swap_state, emit, add_waiting, stopped,
  starting, ready, stopping, shutdown, sleep_pending, asleep, waking,
}

pub state_eq_sound : (s t : ProcessState) → state_eq s t ≡ true → s ≡ t
unfolding state_eq
state_eq_sound stopped t h = ground arith
state_eq_sound _ t h = ground arith

pub state_eq_refl : (s : ProcessState) → state_eq s s ≡ true
unfolding state_eq
state_eq_refl stopped = refl
state_eq_refl _ = refl

-- A swap takes place, or changes nothing.
pub swap_state_cases :
    (e n : ProcessState) (p : Process)
    → ((p.state ≡ e)
        × (is_valid_transition e n ≡ true)
        × (swap_state e n p ≡ ((n, none), emit e n (add_waiting n (record p { state = n })))))
      ⊎ (((swap_state e n p).0.1 ≢ none)
          × ((swap_state e n p).1 ≡ p)
          × ((swap_state e n p).0.0 ≡ p.state)
          × ((p.state ≢ e) ⊎ (is_valid_transition e n ≡ false)))
unfolding swap_state
swap_state_cases e n p = ground (arith, state_eq_sound p.state e, state_eq_refl e)

-- The states from which a process can be started again, each with the swaps that lead to stopped.
pub way_back : ProcessState → List ProcessState
way_back stopped = []
way_back starting = stopped ∷ []
way_back ready = stopping ∷ stopped ∷ []
way_back stopping = stopped ∷ []
way_back shutdown = []
way_back sleep_pending = stopped ∷ []
way_back asleep = stopping ∷ stopped ∷ []
way_back waking = stopped ∷ []

-- `swapState` from the present state to each state of a list in turn.
unfoldable pub swap_along : List ProcessState → Process → Process
swap_along [] p = p
swap_along (s ∷ ss) p = swap_along ss (swap_state p.state s p).1

-- Any swaps, each with its expected state and its new state.
unfoldable pub swap_all : List (ProcessState × ProcessState) → Process → Process
swap_all [] p = p
swap_all ((e, n) ∷ es) p = swap_all es (swap_state e n p).1

shutdown_stays : (e n : ProcessState) (p : Process) → p.state ≡ shutdown → (swap_state e n p).1 ≡ p
unfolding swap_state is_valid_transition
shutdown_stays e n p s = ground (arith, s)

shutdown_final :
    (p : Process)
    → p.state ≡ shutdown
    → (es : List (ProcessState × ProcessState)) → swap_all es p ≡ p
unfolding swap_all
shutdown_final p s [] = refl
shutdown_final p s ((e, n) ∷ es) = rw (shutdown_stays e n p s) (shutdown_final p s es)

back_to_stopped :
    (s : ProcessState) (p : Process)
    → p.state ≡ s
    → s ≢ shutdown
    → (swap_along (way_back s) p).state ≡ stopped
unfolding swap_along way_back swap_state state_eq is_valid_transition emit add_waiting
back_to_stopped stopped p e h = e
back_to_stopped shutdown p e h = absurd (h refl)
back_to_stopped _ p e h = ground arith

-- A process is shut down, and then no sequence of swaps, whatever their expected states, changes it;
-- or it is not, and some sequence of valid swaps leads to stopped.
pub swaps_final :
    (p : Process)
    → ((p.state ≡ shutdown) × ((es : List (ProcessState × ProcessState)) → swap_all es p ≡ p))
      ⊎ ((p.state ≢ shutdown) × ((swap_along (way_back p.state) p).state ≡ stopped))
swaps_final p = elim (Bool-cases (state_eq p.state shutdown)) [
  | inl y ↦
      inl (state_eq_sound p.state shutdown y, shutdown_final p (state_eq_sound p.state shutdown y))
  | inr n ↦ inr (other n, back_to_stopped p.state p refl (other n))
]
  where
    other : state_eq p.state shutdown ≡ false → p.state ≢ shutdown
    other n e = true≢false (sym (rw (e) (state_eq_refl shutdown)) ∙ n)
