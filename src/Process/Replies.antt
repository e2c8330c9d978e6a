-- ===== src/Process/Replies.antt =====
-- proxy/process.go: what `ProxyRequest` answers when no other goroutine interferes.
use llmsnap.Process.Lifecycle.{alone}
use llmsnap.Process.Request.{
  Request, proxy_request, admit, serve, unavailable, concurrent_limit, too_many_requests, proxied,
  finish_request, Reply, status,
}
use llmsnap.Config.{ModelConfig}
use llmsnap.Prelude.{
  refl, ℕ, Bool, ◌||◌, ◌≡◌, true, arith, if◌then◌else◌, leb, ap, inl, ltb_ℤ, ℤ, ◌⊎◌, Bool-cases,
  inr, pos, pos_part, some, ◌∙◌, leb→le, suc, ◌≤◌, negsuc, ◌<◌, none, zero,
}
use llmsnap.Process.{ProcessState, Process, state_eq, shutdown, stopping, sleep_pending, ready}
use llmsnap.Process.Schedule.{
  atomically, interfered, try_acquire, done, add_in_flight, count_request, done_in_flight,
  discount_request, release_slot, set_last_request_handled,
}

-- The states in which no request is taken.
abbrev pub refuses : ProcessState → Bool
refuses s = state_eq s shutdown || state_eq s stopping || state_eq s sleep_pending

abbrev pub handled_at : ℕ → Process → Process
handled_at now p = record p { last_request_handled = now }

-- The tests in turn, alone.
answered_by_tests :
    (config : ModelConfig) (r : Request) (p : Process)
    → r.reverse_proxy ≡ true
    → (refuses p.state || state_eq p.state ready) ≡ true
    → proxy_request config r (alone p) ≡ (
        if refuses p.state
        then done (unavailable p.state) (alone p)
        else if leb (concurrent_limit config) p.concurrency_limit_semaphore
        then done too_many_requests (alone p)
        else done proxied (alone (handled_at r.ends_at p)))
unfolding proxy_request admit serve atomically interfered try_acquire state_eq finish_request
    add_in_flight count_request done_in_flight discount_request release_slot
    set_last_request_handled
answered_by_tests config r p h settled = ground (arith, h, settled)

abbrev pub Refuses : ProcessState → Type 0
Refuses s = (s ≡ shutdown) ⊎ ((s ≡ stopping) ⊎ (s ≡ sleep_pending))

-- The number of requests taken at once, for the number that is configured.
abbrev pub slots : ℤ → ℕ
slots (pos (suc n)) = suc n
slots (pos zero) = 100
slots (negsuc n) = 100

-- The reply to a request and the process after it: 503 and no change where requests are refused; 429
-- and no change where every slot is taken; or else the upstream's reply, and the time is noted.
abbrev pub Answers : ModelConfig → ℕ → Process → Reply → Process → Type 0
Answers config now p reply after =
    (Refuses p.state × (status reply ≡ some 503) × (after ≡ p))
    ⊎ ((p.state ≡ ready)
        × (((slots config.concurrency_limit ≤ p.concurrency_limit_semaphore)
              × (status reply ≡ some 429)
              × (after ≡ p))
            ⊎ ((p.concurrency_limit_semaphore < slots config.concurrency_limit)
                × (status reply ≡ none)
                × (after ≡ handled_at now p))))

concurrent_limit-slots :
    (config : ModelConfig) → concurrent_limit config ≡ slots config.concurrency_limit
unfolding concurrent_limit
concurrent_limit-slots config = by_number config.concurrency_limit
  where
    by_number : (n : ℤ) → (if ltb_ℤ (pos 0) n then pos_part n else 100) ≡ slots n
    by_number (pos zero) = refl
    by_number (pos (suc n)) = ground arith
    by_number (negsuc n) = ground arith

Refuses-refuses : (s : ProcessState) → Refuses s → refuses s ≡ true
unfolding state_eq
Refuses-refuses s (inl e) = ap refuses e
Refuses-refuses s (inr (inl e)) = ap refuses e
Refuses-refuses s (inr (inr e)) = ap refuses e

module _ (config : ModelConfig) (r : Request) (p : Process) (h : r.reverse_proxy ≡ true)
    (now : p.state ≡ ready) where
  at_ready : proxy_request config r (alone p) ≡ (
      if leb (slots config.concurrency_limit) p.concurrency_limit_semaphore
      then done too_many_requests (alone p)
      else done proxied (alone (handled_at r.ends_at p)))
  unfolding state_eq
  at_ready = ground (
    arith,
    answered_by_tests config r p h (ap (λ s. refuses s || state_eq s ready) now),
    ap refuses now,
    concurrent_limit-slots config,
  )

  ready_lem :
      (reply : Reply) × (after : Process) × (proxy_request config r (alone p)
        ≡ done reply (alone after))
      × Answers config r.ends_at p reply after
  unfolding status
  ready_lem =
      elim (Bool-cases (leb (slots config.concurrency_limit) p.concurrency_limit_semaphore)) [
        | inl full ↦ (
          too_many_requests,
          p,
          at_ready ∙ rw full refl,
          inr (now, inl (leb→le _ _ full, refl, refl)),
        )
        | inr free ↦ (
          proxied,
          handled_at r.ends_at p,
          at_ready ∙ rw free refl,
          inr (now, inr (ground (arith, free), refl, refl)),
        )
      ]

-- Alone, a request to a process with a proxy, that refuses requests or is ready, is answered: with 503
-- if the process stops, is shut down or falls asleep; if it is ready, with 429 if as many slots are
-- taken as are configured, or 100 if no positive number is, and else with the upstream's reply. Only
-- the time of the last request changes, and only in the last case.
pub proxy_request_lem :
    (config : ModelConfig) (r : Request) (p : Process)
    → r.reverse_proxy ≡ true
    → Refuses p.state ⊎ (p.state ≡ ready)
    → (reply : Reply) × (after : Process) × (proxy_request config r (alone p)
        ≡ done reply (alone after))
      × Answers config r.ends_at p reply after
unfolding status state_eq
proxy_request_lem config r p h (inl bad) =
    let refused = Refuses-refuses p.state bad in
    (
      unavailable p.state,
      p,
      answered_by_tests config r p h (ground (arith, refused)) ∙ rw refused refl,
      inl (bad, refl, refl),
    )
proxy_request_lem config r p h (inr now) = ready_lem config r p h now
