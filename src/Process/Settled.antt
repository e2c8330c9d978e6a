-- ===== src/Process/Settled.antt =====
-- proxy/process.go: a process between calls, and the requests to it.
use llmsnap.Process.Calm.{IsUp}
use llmsnap.Process.Schedule.{on_none, done}
use llmsnap.Process.Lifecycle.{started, Succeeds, alone, start_lem}
use llmsnap.Process.Start.{start, Launch, unsplit, ReadyError, proxy_missing, unsanitized}
use llmsnap.Process.{Process, closed_in, new_process, stopped, shutdown}
use llmsnap.Prelude.{
  ℕ, ◌≡◌, ◌≤◌, Option, arith, false, ◌∷◌, inl, inr, ◌<◌, ◌⊎◌, [], none, Bool, ◌∙◌, ap, refl, some,
  if◌then◌else◌, text_eq,
}
use llmsnap.Config.{ModelConfig}

-- What a start, a sleep and a wake of a process meet: a start succeeds, or it ends before the command is
-- run, as the proxy's address is missing or the command cannot be split.
pub record Surroundings (config : ModelConfig) : Type 0 where
  pub launch : Launch
  pub launches : Succeeds config launch ⊎ (config.proxy ≡ []) ⊎ (launch.args ≡ none)
  pub sleep_answers : ℕ → Bool
  pub wake_answers : ℕ → Bool

-- A process with `n` requests: it is stopped, shut down, ready or asleep, and every channel that is
-- closed was made, and is not the one of the command that runs.
pub record HasRequests (n : ℕ) (p : Process) : Type 0 where
  pub flights : p.in_flight_requests ≡ n
  pub slots : p.concurrency_limit_semaphore ≡ n
  pub fresh : (c : ℕ) → p.made ≤ c → closed_in p.closed c ≡ false
  pub made : p.cmd_wait_chan < p.made
  pub at : (p.state ≡ stopped) ⊎ (p.state ≡ shutdown) ⊎ IsUp p

abbrev pub Settled : Process → Type 0
Settled p = HasRequests 0 p

pub new_process-Settled : Settled new_process
unfolding closed_in
new_process-Settled = record {
  flights = refl;
  slots = refl;
  fresh = λ c le. refl;
  made = omega arith;
  at = inl refl;
}

-- Closing the channel of the command keeps what is known of the others.
closed-fresh :
    (p : Process) (c : ℕ)
    → ((d : ℕ) → p.made ≤ d → closed_in p.closed d ≡ false)
    → p.cmd_wait_chan < p.made
    → p.made ≤ c
    → closed_in (p.cmd_wait_chan ∷ p.closed) c ≡ false
unfolding closed_in
closed-fresh p c fresh made le = ground (arith, fresh c le, made, le)

-- A process that has been stopped, with its command's channel closed.
pub stopped-HasRequests :
    (n : ℕ) (p q : Process)
    → HasRequests n p
    → q.in_flight_requests ≡ p.in_flight_requests
    → q.concurrency_limit_semaphore ≡ p.concurrency_limit_semaphore
    → q.made ≡ p.made
    → q.cmd_wait_chan ≡ p.cmd_wait_chan
    → q.closed ≡ p.cmd_wait_chan ∷ p.closed
    → (q.state ≡ stopped) ⊎ (q.state ≡ shutdown)
    → HasRequests n q
stopped-HasRequests n p q h flights slots made chan closed at = record {
  flights = flights ∙ h.flights;
  slots = slots ∙ h.slots;
  fresh = λ c le.
      ap (λ cs. closed_in cs c) closed ∙ closed-fresh p c h.fresh h.made (omega (arith, le, made));
  made = omega (arith, h.made, made, chan);
  at = elim at [ inl e ↦ inl e | inr e ↦ inr (inl e) ];
}

-- What a start of a stopped process comes to.
pub record Starts (config : ModelConfig) (l : Launch) (n : ℕ) (p : Process) : Type 0 where
  pub error : Option ReadyError
  pub after : Process
  pub is : start config l (alone p) ≡ done error (alone after)
  pub kept : HasRequests n after
  pub waking : after.wait_waking ≡ p.wait_waking

started-HasRequests : (n : ℕ) (p : Process) → HasRequests n p → HasRequests n (started p)
unfolding closed_in
started-HasRequests n p h = record {
  flights = h.flights;
  slots = h.slots;
  fresh = λ c le. h.fresh c (omega (arith, le));
  made = omega arith;
  at =
      inr
        (inr (record { state = inl refl; cancels = refl; opened = h.fresh p.made (omega arith) }));
}

pub start-kept :
    (config : ModelConfig) (s : Surroundings config) (n : ℕ) (p : Process)
    → p.state ≡ stopped
    → HasRequests n p
    → Starts config s.launch n p
unfolding start unsplit on_none text_eq
start-kept config s n p e h = elim s.launches [
  | inl ok ↦ record {
    error = none;
    after = started p;
    is = start_lem config s.launch p e ok;
    kept = started-HasRequests n p h;
    waking = refl;
  }
  | inr (inl missing) ↦ record {
    error = some proxy_missing;
    after = p;
    is = rw missing refl;
    kept = h;
    waking = refl;
  }
  | inr (inr unsplit_args) ↦ record {
    error = if text_eq config.proxy [] then some proxy_missing else some unsanitized;
    after = p;
    is = ground (arith, unsplit_args);
    kept = h;
    waking = refl;
  }
]
