-- ===== src/Process/Balance.antt =====
-- proxy/process.go: `ProxyRequest` gives back what it takes.
use llmsnap.Process.Methods.{serve-Guarantee}
use llmsnap.Process.Triple.{
  Stable, Triple, atomically-Triple, bind-Triple, if-Triple, return-Triple, Guarantee-Triple,
}
use llmsnap.Process.Swap.{swap_state_cases}
use llmsnap.Process.Request.{
  Request, proxy_request, finish_request, admit, Reply, too_many_requests, serve,
}
use llmsnap.Config.{ModelConfig}
use llmsnap.Process.Frame.{Frame, Orderly, Ensures, allowed, get-Guarantee}
use llmsnap.Prelude.{
  ◌∙◌, ◌≡◌, false, arith, inl, inr, true, Bool, ℕ, ◌+◌, Bool-cases, if◌then◌else◌, ltb, not,
}
use llmsnap.Process.{
  Process, ProcessState, emit, settle_from, add_waiting, close_wait_chan, force_state, swap_state,
  force_stopped_on, install_command, starting, stopped, stopping,
}
use llmsnap.Process.Schedule.{
  World, ◌>>=◌, ◌>>◌, return, act, Action, fail_start, reset_failures, done_starting, done_sleeping,
  done_waking, swaps, settles, set_last_request_handled, atomically, discount_request,
  done_in_flight, try_acquire, release_slot, Outcome, add_in_flight, count_request, done, blocked,
  exhausted, modify,
}

pub record Balanced (p q : Process) : Type 0 where
  pub semaphore : q.concurrency_limit_semaphore ≡ p.concurrency_limit_semaphore
  pub in_flight : q.in_flight_requests ≡ p.in_flight_requests
  pub counted : q.in_flight_requests_count ≡ p.in_flight_requests_count

Balanced-trans : (p q r : Process) → Balanced p q → Balanced q r → Balanced p r
Balanced-trans p q r h k = record {
  semaphore = k.semaphore ∙ h.semaphore;
  in_flight = k.in_flight ∙ h.in_flight;
  counted = k.counted ∙ h.counted;
}

Balanced-refl : (p : Process) → Balanced p p
Balanced-refl p = ground arith

add_waiting-Balanced :
    (e n : ProcessState) (p : Process)
    → Balanced p (emit e n (add_waiting n (record p { state = n })))
unfolding emit add_waiting
add_waiting-Balanced e starting p = ground arith
add_waiting-Balanced e _ p = ground arith

swap_state-Balanced : (e n : ProcessState) (p : Process) → Balanced p (swap_state e n p).1
swap_state-Balanced e n p = elim (swap_state_cases e n p) [
  | inl s ↦ rw s.2 (add_waiting-Balanced e n p)
  | inr s ↦ rw s.1 (Balanced-refl p)
]

settle_from-Balanced : (s : ProcessState) (p : Process) → Balanced p (settle_from s p)
unfolding settle_from force_state force_stopped_on
settle_from-Balanced stopping p = ground (arith, swap_state-Balanced stopping stopped p)
settle_from-Balanced _ p = ground arith

act-Balanced : (a : Action) (p : Process) → allowed false a ≡ true → Balanced p (act a p)
unfolding act close_wait_chan install_command fail_start reset_failures done_starting done_sleeping
    done_waking force_state
act-Balanced (swaps e n) p h = swap_state-Balanced e n p
act-Balanced (settles read) p h = settle_from-Balanced read p
act-Balanced _ p h = ground arith

abbrev requests_apart : Frame
requests_apart = record {
  requests = false;
  Keeps = Balanced;
  same = Balanced-refl;
  chain = Balanced-trans;
  step = act-Balanced;
}

-- The slots and counts of `q` are those of `p` and what a request holds.
pub record Held (a b c : ℕ) (p q : Process) : Type 0 where
  pub slots : q.concurrency_limit_semaphore ≡ p.concurrency_limit_semaphore + a
  pub flights : q.in_flight_requests ≡ p.in_flight_requests + b
  pub counts : q.in_flight_requests_count ≡ p.in_flight_requests_count + c

Held-Stable : (a b c : ℕ) (p : Process) → Stable requests_apart (Held a b c p)
Held-Stable a b c p q r k h = record {
  slots = k.semaphore ∙ h.slots;
  flights = k.in_flight ∙ h.flights;
  counts = k.counted ∙ h.counts;
}

begun : (p q : Process) → Held 1 0 0 p q → Held 1 1 0 p (add_in_flight q)
unfolding add_in_flight
begun p q h = omega arith

counted : (p q : Process) → Held 1 1 0 p q → Held 1 1 1 p (count_request q)
unfolding count_request
counted p q h = omega arith

module _ (p : Process) where
  AcquiredOrNot : Bool → Process → Type 0
  AcquiredOrNot true = Held 1 0 0 p
  AcquiredOrNot false = Held 0 0 0 p

  try_acquire-Triple :
      (limit : ℕ)
      → Triple requests_apart (Held 0 0 0 p) (atomically (try_acquire limit)) AcquiredOrNot
  unfolding try_acquire AcquiredOrNot
  try_acquire-Triple limit = atomically-Triple _ _ _ (Held-Stable 0 0 0 p) taken
    where
      taken :
          (q : Process)
          → Held 0 0 0 p q
          → AcquiredOrNot (try_acquire limit q).0 (try_acquire limit q).1
      taken q h = elim (Bool-cases (ltb q.concurrency_limit_semaphore limit)) [
        | inl e ↦ rw e (ground arith)
        | inr e ↦ rw e (ground arith)
      ]

  finish_request-Triple :
      (now : ℕ) → Triple requests_apart (Held 1 1 1 p) (finish_request now) (λ _. Held 0 0 0 p)
  unfolding finish_request set_last_request_handled discount_request done_in_flight release_slot
  finish_request-Triple now =
      bind-Triple _ (λ _. Held 1 1 1 p) _ _ _
        (atomically-Triple _ _ _ (Held-Stable 1 1 1 p) (λ q h. ground arith))
        λ _.
          bind-Triple _ (λ _. Held 1 1 0 p) _ _ _
            (atomically-Triple _ _ _ (Held-Stable 1 1 1 p) (λ q h. ground arith))
            λ _.
              bind-Triple _ (λ _. Held 1 0 0 p) _ _ _
                (atomically-Triple _ _ _ (Held-Stable 1 1 0 p) (λ q h. ground arith))
                λ _. atomically-Triple _ _ _ (Held-Stable 1 0 0 p) (λ q h. ground arith)

  admit-Triple :
      (config : ModelConfig) (r : Request)
      → Triple requests_apart (Held 0 0 0 p) (admit config r) (λ _. Held 0 0 0 p)
  unfolding admit AcquiredOrNot
  admit-Triple config r = bind-Triple _ AcquiredOrNot _ _ _ (try_acquire-Triple _) branch
    where
      branch :
          (b : Bool)
          → Triple requests_apart
              (AcquiredOrNot b)
              (if not b then return too_many_requests else do
                modify add_in_flight
                modify count_request
                reply ← serve config r
                finish_request r.ends_at
                return reply)
              (λ _. Held 0 0 0 p)
      branch true =
          bind-Triple _ (λ _. Held 1 1 0 p) _ _ _
            (atomically-Triple _ _ _ (Held-Stable 1 0 0 p) (begun p))
            λ _.
              bind-Triple _ (λ _. Held 1 1 1 p) _ _ _
                (atomically-Triple _ _ _ (Held-Stable 1 1 0 p) (counted p))
                λ _.
                  bind-Triple _ (λ _. Held 1 1 1 p) _ _ _
                    (Guarantee-Triple _ _ (Held-Stable 1 1 1 p)
                      (serve-Guarantee requests_apart config r))
                    λ reply.
                      bind-Triple _ (λ _. Held 0 0 0 p) _ _ _ (finish_request-Triple r.ends_at)
                        λ _. return-Triple (λ _. Held 0 0 0 p) reply
      branch false = return-Triple (λ _. Held 0 0 0 p) too_many_requests

  proxy_request-Triple :
      (config : ModelConfig) (r : Request)
      → Triple requests_apart (Held 0 0 0 p) (proxy_request config r) (λ _. Held 0 0 0 p)
  unfolding proxy_request
  proxy_request-Triple config r = if-Triple _ _ _ (return-Triple (λ _. Held 0 0 0 p) _) (
      bind-Triple _ (λ _. Held 0 0 0 p) _ _ _
        (Guarantee-Triple _ _ (Held-Stable 0 0 0 p) (get-Guarantee _))
        λ state. if-Triple _ _ _ (return-Triple (λ _. Held 0 0 0 p) _) (admit-Triple config r))

unheld :
    (p : Process) (o : Outcome Reply)
    → Ensures (λ _ v. Held 0 0 0 p v.process × Orderly false v.others) o
    → Ensures (λ _ v. Balanced p v.process) o
unheld p (done a v) h = ground (arith, h.0)
unheld p blocked h = tt
unheld p exhausted h = tt

-- When the other goroutines begin and end no request meanwhile, a request that returns has given
-- back its slot and both of its counts, whatever its reply.
pub proxy_request-Balanced :
    (config : ModelConfig) (r : Request) (w : World)
    → Orderly false w.others
    → Ensures (λ _ v. Balanced w.process v.process) (proxy_request config r w)
proxy_request-Balanced config r w o =
    unheld w.process _ ((proxy_request-Triple w.process config r).holds w o (omega arith))
