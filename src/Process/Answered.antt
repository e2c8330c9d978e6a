-- ===== src/Process/Answered.antt =====
-- proxy/process.go: a request to a process between calls leaves one between calls.
use llmsnap.Process.Lifecycle.{woken, alone, wake_lem}
use llmsnap.Process.Calm.{IsUp, woken_badly, told, wake-fails}
use llmsnap.Prelude.{
  ap, refl, false, true, List, ℕ, if◌then◌else◌, ◌≡◌, ◌&&◌, ◌⊎◌, not, [], inl, ◌∷◌, arith, inr,
  Bool-cases, none, ◌+◌, ◌-◌, ltb_ℤ, ◌<◌, ℤ, ◌||◌, pos, pos_part, negsuc,
}
use llmsnap.Process.Schedule.{
  atomically, interfered, Action, acts, done, World, try_acquire, add_in_flight, count_request,
  set_last_request_handled, discount_request, done_in_flight, release_slot,
}
use llmsnap.Process.{Process, state_eq, asleep, stopped, shutdown, stopping, sleep_pending}
use llmsnap.Process.Sleep.{make_ready, send_requests}
use llmsnap.Process.Settled.{Surroundings, HasRequests, start-kept, stopped-HasRequests, Settled}
use llmsnap.Process.Request.{
  serve, Request, Reply, reply_to, sends_loading_state, proxied, concurrent_limit, proxy_request,
  admit, finish_request, no_reverse_proxy, unavailable,
}
use llmsnap.Config.{ModelConfig}

-- The request with what it meets.
abbrev pub surrounded : {config : ModelConfig} → Surroundings config → Request → Request
surrounded s r = record r { wake_answers = s.wake_answers; launch = s.launch }

-- What the other goroutines do from the look at the state on: the command exits where a wake fails.
abbrev serving : (config : ModelConfig) → Surroundings config → Process → List (List Action)
serving config s p =
    if state_eq p.state asleep && not (send_requests s.wake_answers config.wake_endpoints)
    then [] ∷ [] ∷ (told ([] ∷ []) p).others
    else []

record Serves (config : ModelConfig) (s : Surroundings config) (r : Request) (n : ℕ) (p : Process)
    : Type 0 where
  reply : Reply
  after : Process
  is :
      serve config (surrounded s r) (record { process = p; others = serving config s p })
      ≡ done reply (alone after)
  kept : HasRequests n after

serve-kept :
    (config : ModelConfig) (s : Surroundings config) (r : Request) (n : ℕ) (p : Process)
    → ((p.state ≡ stopped) ⊎ IsUp p)
    → HasRequests n p
    → Serves config s r n p
unfolding serve make_ready atomically interfered acts state_eq
serve-kept config s r n p (inl e) h =
    let begun = start-kept config s n p e h in
    record {
      reply = reply_to (sends_loading_state config (surrounded s r)) begun.error;
      after = begun.after;
      is = ground (arith, e, begun.is);
      kept = begun.kept;
    }
serve-kept config s r n p (inr up) h = elim up.state [
  | inl e ↦ record { reply = proxied; after = p; is = ground (arith, e); kept = h }
  | inr e ↦ elim (Bool-cases (send_requests s.wake_answers config.wake_endpoints)) [
    | inl ok ↦ record {
      reply = reply_to (sends_loading_state config (surrounded s r)) none;
      after = woken p;
      is = ground (arith, e, ok, wake_lem config s.wake_answers s.launch p ok e);
      kept = record {
        flights = h.flights;
        slots = h.slots;
        fresh = h.fresh;
        made = h.made;
        at = inr (inr (record { state = inl refl; cancels = up.cancels; opened = up.opened }));
      };
    }
    | inr bad ↦
        let fallen : HasRequests n (woken_badly p) =
          stopped-HasRequests n p (woken_badly p) h refl refl refl refl refl (inl refl) in
        let begun = start-kept config s n (woken_badly p) refl fallen in
        record {
          reply = reply_to (sends_loading_state config (surrounded s r)) begun.error;
          after = record begun.after { wait_waking = p.wait_waking };
          is = ground (
            arith,
            e,
            bad,
            wake-fails config s.wake_answers s.launch p begun.after begun.error bad e up
                begun.waking begun.is,
          );
          kept = record {
            flights = begun.kept.flights;
            slots = begun.kept.slots;
            fresh = begun.kept.fresh;
            made = begun.kept.made;
            at = elim begun.kept.at [
              | inl stays ↦ inl stays
              | inr (inl shut) ↦ inr (inl shut)
              | inr (inr runs) ↦ inr (
                  inr (record { state = runs.state; cancels = runs.cancels; opened = runs.opened }))
            ];
          };
        }
  ]
]

-- The process with one request more.
abbrev entered : Process → Process
entered p = record p {
  in_flight_requests = p.in_flight_requests + 1;
  in_flight_requests_count = p.in_flight_requests_count + 1;
  concurrency_limit_semaphore = p.concurrency_limit_semaphore + 1;
}

abbrev left : ℕ → Process → Process
left now p = record p {
  in_flight_requests = p.in_flight_requests - 1;
  in_flight_requests_count = p.in_flight_requests_count - 1;
  concurrency_limit_semaphore = p.concurrency_limit_semaphore - 1;
  last_request_handled = now;
}

entered-HasRequests : (p : Process) → Settled p → HasRequests 1 (entered p)
entered-HasRequests p h = record {
  flights = omega (arith, h.flights);
  slots = omega (arith, h.slots);
  fresh = h.fresh;
  made = h.made;
  at = elim h.at [
    | inl e ↦ inl e
    | inr (inl e) ↦ inr (inl e)
    | inr (inr up) ↦
        inr (inr (record { state = up.state; cancels = up.cancels; opened = up.opened }))
  ];
}

left-Settled : (now : ℕ) (p : Process) → HasRequests 1 p → Settled (left now p)
left-Settled now p h = record {
  flights = omega (arith, h.flights);
  slots = omega (arith, h.slots);
  fresh = h.fresh;
  made = h.made;
  at = elim h.at [
    | inl e ↦ inl e
    | inr (inl e) ↦ inr (inl e)
    | inr (inr up) ↦
        inr (inr (record { state = up.state; cancels = up.cancels; opened = up.opened }))
  ];
}

limit_positive : (config : ModelConfig) → 0 < concurrent_limit config
unfolding concurrent_limit
limit_positive config = by_limit config.concurrency_limit
  where
    by_limit : (z : ℤ) → 0 < (if ltb_ℤ (pos 0) z then pos_part z else 100)
    by_limit (pos n) = ground arith
    by_limit (negsuc n) = ground arith

-- The world of a request: four critical sections come before the look at the state.
abbrev pub asking : (config : ModelConfig) → Surroundings config → Process → World
asking config s p = record { process = p; others = [] ∷ [] ∷ [] ∷ [] ∷ serving config s p }

-- A request returns, and leaves the process between calls.
pub record Answers (config : ModelConfig) (s : Surroundings config) (r : Request) (p : Process)
    : Type 0 where
  pub reply : Reply
  pub after : Process
  pub rest : List (List Action)
  pub is :
      proxy_request config (surrounded s r) (asking config s p)
      ≡ done reply (record { process = after; others = rest })
  pub kept : Settled after

admitted :
    (config : ModelConfig) (s : Surroundings config) (r : Request) (p : Process)
    → r.reverse_proxy ≡ true
    → ((p.state ≡ stopped) ⊎ IsUp p)
    → Settled p
    → Answers config s r p
unfolding proxy_request admit atomically interfered acts try_acquire add_in_flight count_request
    finish_request set_last_request_handled discount_request done_in_flight release_slot state_eq
admitted config s r p proxies at h =
    let served = serve-kept config s r 1 (entered p) (still at) (entered-HasRequests p h) in
    record {
      reply = served.reply;
      after = left r.ends_at served.after;
      rest = [];
      is = ground (
        arith,
        proxies,
        limit_positive config,
        h.slots,
        served.kept.flights,
        accepts at,
        served.is,
      );
      kept = left-Settled r.ends_at served.after served.kept;
    }
  where
    accepts :
        (p.state ≡ stopped) ⊎ IsUp p
        → (state_eq p.state shutdown || state_eq p.state stopping || state_eq p.state sleep_pending)
          ≡ false
    accepts (inl e) =
        ap (λ x. state_eq x shutdown || state_eq x stopping || state_eq x sleep_pending) e
    accepts (inr up) = elim up.state [
      | inl e ↦ ap (λ x. state_eq x shutdown || state_eq x stopping || state_eq x sleep_pending) e
      | inr e ↦ ap (λ x. state_eq x shutdown || state_eq x stopping || state_eq x sleep_pending) e
    ]

    still : (p.state ≡ stopped) ⊎ IsUp p → (p.state ≡ stopped) ⊎ IsUp (entered p)
    still (inl e) = inl e
    still (inr up) = inr (record { state = up.state; cancels = up.cancels; opened = up.opened })

pub proxy_request-Settled :
    (config : ModelConfig) (s : Surroundings config) (r : Request) (p : Process)
    → Settled p
    → Answers config s r p
unfolding proxy_request atomically interfered acts state_eq
proxy_request-Settled config s r p h = elim (Bool-cases r.reverse_proxy) [
  | inr missing ↦ record {
    reply = no_reverse_proxy;
    after = p;
    rest = (asking config s p).others;
    is = ground (arith, missing);
    kept = h;
  }
  | inl proxies ↦ elim h.at [
    | inl e ↦ admitted config s r p proxies (inl e) h
    | inr (inr up) ↦ admitted config s r p proxies (inr up) h
    | inr (inl shut) ↦ record {
      reply = unavailable shutdown;
      after = p;
      rest = [] ∷ [] ∷ [] ∷ serving config s p;
      is = ground (arith, proxies, shut);
      kept = h;
    }
  ]
]
