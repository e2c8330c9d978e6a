-- ===== src/Process/Ready.antt =====
-- proxy/process.go: what it means that `start` returns nil.
use llmsnap.Process.Methods.{
  installs-Keeps, resets-Keeps, starting_done-Keeps, fails-Keeps, check_health-Guarantee,
  forces-Keeps, swaps-Keeps,
}
use llmsnap.Process.Frame.{
  modify-Guarantee, wait_until-Guarantee, Ensures, Orderly, atomically-Guarantee,
}
use llmsnap.Config.{ModelConfig}
use llmsnap.Process.Swap.{swap_state_cases, state_eq_sound}
use llmsnap.Process.History.{history, all-Orderly}
use llmsnap.Process.Start.{
  become_ready, ReadyError, not_ready, abandon_start, join_start, launch, own_start, start,
  swap_and_start, Launch, command_failed, proxy_missing, was_in, command_and_swap_failed,
  not_starting, unsplit,
}
use llmsnap.Process.Triple.{
  Stable, Triple, bind-Triple, atomically-Triple, Guarantee-Triple, strengthen, return-Triple,
  if-Triple,
}
use llmsnap.Process.Evolves.{emitted}
use llmsnap.Prelude.{
  ℕ, Option, arith, ◌≡◌, ◌≤◌, none, ◌<◌, ◌⊎◌, inl, inr, some, Bool-cases, if◌then◌else◌, refl, ◌∙◌,
  true, ◌≢◌,
}
use llmsnap.Process.{
  Process, ProcessState, emit, SwapError, add_waiting, starting, ready, state_eq, swap_state,
  force_state, stopped, invalid_state_transition, expected_state_mismatch,
}
use llmsnap.Process.Schedule.{
  World, ◌>>◌, return, on_none, modify, reset_failures, on_swap, Outcome, done, blocked, exhausted,
}

-- How often the process became ready after a start.
abbrev pub readied : Process → ℕ
readied p = emitted starting ready p.events

-- Nil means that the process became ready at least once more than `n` times.
abbrev Became : ℕ → Option ReadyError → Process → Type 0
Became n r p = r ≡ none → n < readied p

-- Nil means that it is ready now, or did so.
abbrev pub Answered : ℕ → Option ReadyError → Process → Type 0
Answered n r p = r ≡ none → (p.state ≡ ready) ⊎ (n < readied p)

module _ (n : ℕ) where
  AtLeast-Stable : Stable history (λ p. n ≤ readied p)
  AtLeast-Stable p q k h = omega (arith, k.grows starting ready)

  Became-Stable : (r : Option ReadyError) → Stable history (Became n r)
  Became-Stable r p q k h e = omega (arith, k.grows starting ready, h e)

  -- What the swap to ready leaves.
  Swapped : ProcessState × Option SwapError → Process → Type 0
  Swapped r p = r.1 ≡ none → n < readied p

  Swapped-Stable : (r : ProcessState × Option SwapError) → Stable history (Swapped r)
  unfolding Swapped
  Swapped-Stable r p q k h e = omega (arith, k.grows starting ready, h e)

  swap_to_ready :
      (p : Process)
      → n ≤ readied p
      → Swapped (swap_state starting ready p).0 (swap_state starting ready p).1
  unfolding Swapped emit add_waiting emitted state_eq
  swap_to_ready p h e = elim (swap_state_cases starting ready p) [
    | inl s ↦ rw s.2 (omega arith)
    | inr s ↦ absurd (s.0 e)
  ]

  -- An error says nothing.
  failed : (P : Process → Type 0) (e : ReadyError) → Triple history P (return (some e)) (Became n)
  failed P e = strengthen (λ p h. λ q. cc) (return-Triple (Became n) (some e))

  become_ready-Triple : Triple history (λ p. n ≤ readied p) become_ready (Became n)
  unfolding become_ready on_none Swapped
  become_ready-Triple =
      bind-Triple _ Swapped _ _ _ (atomically-Triple _ _ _ AtLeast-Stable swap_to_ready) branch
    where
      branch :
          (r : ProcessState × Option SwapError)
          → Triple history
              (Swapped r)
              (on_none r.1
                (modify reset_failures >> return none)
                (λ e. return (some (not_ready r.0 e))))
              (Became n)
      branch (cur, none) =
          bind-Triple _ (λ _. Swapped (cur, none)) _ _ _
            (Guarantee-Triple _ _ (Swapped-Stable (cur, none))
              (modify-Guarantee _ (resets-Keeps history)))
            λ _. strengthen (λ p h e. h refl) (return-Triple (Became n) none)
      branch (cur, some e) = failed _ (not_ready cur e)

  abandon_start-Triple : Triple history (λ p. n ≤ readied p) abandon_start (Became n)
  unfolding abandon_start on_none
  abandon_start-Triple =
      bind-Triple _ (λ _ p. n ≤ readied p) _ _ _
        (Guarantee-Triple _ _ AtLeast-Stable
          (atomically-Guarantee _ (swaps-Keeps history starting stopped)))
        branch
    where
      branch :
          (r : ProcessState × Option SwapError)
          → Triple history
              (λ p. n ≤ readied p)
              (on_none r.1 (return (some command_failed)) (λ e.
                modify (force_state stopped) >> return (some (command_and_swap_failed r.0 e))))
              (Became n)
      branch (cur, none) = failed _ command_failed
      branch (cur, some e) =
          bind-Triple _ (λ _ p. n ≤ readied p) _ _ _
            (Guarantee-Triple _ _ AtLeast-Stable
              (modify-Guarantee _ (forces-Keeps history stopped)))
            λ _. failed _ (command_and_swap_failed cur e)

  after_check :
      (failure : Option ReadyError)
      → Triple history
          (λ p. n ≤ readied p)
          (on_none failure become_ready (λ e. return (some e)))
          (Became n)
  unfolding on_none
  after_check none = become_ready-Triple
  after_check (some e) = failed _ e

  launch-Triple : (l : Launch) → Triple history (λ p. n ≤ readied p) (launch l) (Became n)
  unfolding launch
  launch-Triple l =
      bind-Triple _ (λ _ p. n ≤ readied p) _ _ _
        (Guarantee-Triple _ _ AtLeast-Stable (modify-Guarantee _ (installs-Keeps history)))
        λ _.
          bind-Triple _ (λ _ p. n ≤ readied p) _ _ _
            (Guarantee-Triple _ _ AtLeast-Stable (modify-Guarantee _ (fails-Keeps history)))
            λ _. if-Triple _ _ _ abandon_start-Triple (
              bind-Triple _ (λ _ p. n ≤ readied p) _ _ _
                (Guarantee-Triple _ _ AtLeast-Stable (check_health-Guarantee history l))
                after_check)

  own_start-Triple : (l : Launch) → Triple history (λ p. n ≤ readied p) (own_start l) (Answered n)
  unfolding own_start
  own_start-Triple l = bind-Triple _ (Became n) _ _ _ (launch-Triple l) λ r.
      bind-Triple _ (λ _. Became n r) _ _ _
        (Guarantee-Triple _ _ (Became-Stable r) (modify-Guarantee _ (starting_done-Keeps history)))
        λ _. strengthen (λ p h e. inr (h e)) (return-Triple (Answered n) r)

  refused :
      (P : Process → Type 0) (e : ReadyError) → Triple history P (return (some e)) (Answered n)
  refused P e = strengthen (λ p h. λ q. cc) (return-Triple (Answered n) (some e))

  join_start-Triple : Triple history (λ p. n ≤ readied p) join_start (Answered n)
  unfolding join_start
  join_start-Triple =
      bind-Triple _ (λ _ p. n ≤ readied p) _ _ _
        (Guarantee-Triple _ _ AtLeast-Stable (wait_until-Guarantee _))
        λ _.
          bind-Triple _ (λ s p. p.state ≡ s) _ _ _
            (atomically-Triple _ _ _ AtLeast-Stable (λ p h. refl))
            λ state.
              strengthen
                (λ p h e. inl (elim (Bool-cases (state_eq state ready)) [
                  | inl t ↦ h ∙ state_eq_sound state ready t
                  | inr f ↦ ground (arith, f)
                ]))
                (return-Triple (Answered n) _)

  swap_and_start-Triple :
      (l : Launch) → Triple history (λ p. n ≤ readied p) (swap_and_start l) (Answered n)
  unfolding swap_and_start on_swap
  swap_and_start-Triple l =
      bind-Triple _ (λ _ p. n ≤ readied p) _ _ _
        (Guarantee-Triple _ _ AtLeast-Stable
          (atomically-Guarantee _ (swaps-Keeps history stopped starting)))
        branch
    where
      branch :
          (r : ProcessState × Option SwapError)
          → Triple history
              (λ p. n ≤ readied p)
              (on_swap r.1
                (own_start l)
                (if state_eq r.0 starting then join_start else return (some (was_in r.0)))
                (return (some (not_starting r.0 invalid_state_transition))))
              (Answered n)
      branch (cur, none) = own_start-Triple l
      branch (cur, some expected_state_mismatch) =
          if-Triple _ _ _ join_start-Triple (refused _ (was_in cur))
      branch (cur, some invalid_state_transition) =
          refused _ (not_starting cur invalid_state_transition)

  start-Triple :
      (config : ModelConfig) (l : Launch)
      → Triple history (λ p. n ≤ readied p) (start config l) (Answered n)
  unfolding start on_none
  start-Triple config l = if-Triple _ _ _ (refused _ proxy_missing) (branch (unsplit l.args))
    where
      branch :
          (e : Option ReadyError)
          → Triple history
              (λ p. n ≤ readied p)
              (on_none e (swap_and_start l) (λ e. return (some e)))
              (Answered n)
      branch none = swap_and_start-Triple l
      branch (some e) = refused _ e

-- Whatever the other goroutines do: when `start` returns, it returns an error, or the process is
-- ready at that moment, or it went from starting to ready since `start` was called.
pub start-nil :
    (config : ModelConfig) (l : Launch) (w : World)
    → Ensures
        (λ r v. (r ≢ none) ⊎ ((v.process.state ≡ ready) ⊎ (readied w.process < readied v.process)))
        (start config l w)
start-nil config l w =
    only (start config l w)
      ((start-Triple (readied w.process) config l).holds w (all-Orderly w.others) (omega arith))
  where
    only :
        (o : Outcome (Option ReadyError))
        → Ensures (λ r v. Answered (readied w.process) r v.process × Orderly true v.others) o
        → Ensures
            (λ r v.
              (r ≢ none) ⊎ ((v.process.state ≡ ready) ⊎ (readied w.process < readied v.process)))
            o
    only (done none v) h = inr (h.0 refl)
    only (done (some e) v) h = inl (ground arith)
    only blocked h = tt
    only exhausted h = tt
