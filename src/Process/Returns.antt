-- ===== src/Process/Returns.antt =====
-- proxy/process.go: every method returns from a process between calls and leaves one, where no other
-- goroutine interferes and a command exits when it is told to.
use mathlib.Core.Bool.{true≢false}
use llmsnap.Process.Calm.{
  shutting, told, up-Running, stop-told, IsUp, shut_from, shut_down-told, slept_badly, sleep-fails,
}
use llmsnap.Process.Sleep.{is_sleep_enabled, send_requests, sleep, make_idle}
use llmsnap.Process.Stop.{stop, shut_down, stop_immediately}
use llmsnap.Process.Lifecycle.{
  stopped_from, exits, AtRest, alone, stop-AtRest, stop_immediately_lem, slept, sleep_lem,
}
use llmsnap.Prelude.{
  ◌∙◌, sym, true, ◌≡◌, List, if◌then◌else◌, inl, ◌⊎◌, inr, refl, ◌&&◌, [], not, ap, ◌∷◌, Bool-cases,
  arith,
}
use llmsnap.Process.Settled.{Settled, Surroundings, stopped-HasRequests}
use llmsnap.Process.{
  Process, is_valid_transition, state_eq, stopped, ready, stopping, shutdown, asleep,
}
use llmsnap.Process.Schedule.{M, World, Action, done, atomically, interfered}
use llmsnap.Config.{ModelConfig}

-- A run of a method that ends in a process between calls.
pub record Runs {A : Type 0} (m : M A) (w : World) : Type 0 where
  pub result : A
  pub after : Process
  pub rest : List (List Action)
  pub is : m w ≡ done result (record { process = after; others = rest })
  pub kept : Settled after

-- Neither ready nor on the way there.
abbrev pub IsDown : Process → Type 0
IsDown p = (p.state ≡ stopped) ⊎ (p.state ≡ shutdown) ⊎ (p.state ≡ asleep)

-- The worlds in which the methods run: a command that is up exits in time.
unfoldable pub to_stop : Process → World
to_stop p = if is_valid_transition p.state stopping then told ([] ∷ []) p else alone p

unfoldable pub to_stop_now : Process → World
to_stop_now p = if is_valid_transition p.state stopping then exits p [] else alone p

unfoldable pub to_shut_down : Process → World
to_shut_down p = if is_valid_transition p.state stopping then shutting p else alone p

unfoldable pub to_sleep : (config : ModelConfig) → Surroundings config → Process → World
to_sleep config s p =
    if is_sleep_enabled config
      && state_eq p.state ready
      && not (send_requests s.sleep_answers config.sleep_endpoints)
    then told ([] ∷ [] ∷ []) p
    else alone p

unfoldable pub to_idle : (config : ModelConfig) → Surroundings config → Process → World
to_idle config s p = if is_sleep_enabled config then to_sleep config s p else to_stop p

-- A run that ends with the process down.
pub record EndsDown {A : Type 0} (m : M A) (w : World) : Type 0 where
  pub run : Runs m w
  pub down : IsDown run.after

at_rest : (p : Process) → (p.state ≡ stopped) ⊎ (p.state ≡ shutdown) → AtRest p
unfolding is_valid_transition state_eq
at_rest p (inl e) = ap (λ s. is_valid_transition s stopping) e
at_rest p (inr e) = ap (λ s. is_valid_transition s stopping) e

stopped-Settled : (p : Process) → Settled p → Settled (stopped_from p)
stopped-Settled p h = stopped-HasRequests 0 p (stopped_from p) h refl refl refl refl refl (inl refl)

-- A method that leaves a process alone at rest, and brings one that is up down.
ends_by :
    (m : M (Unit {0})) (p : Process) (w : World)
    → Settled p
    → (AtRest p → m (alone p) ≡ done tt (alone p))
    → (IsUp p → EndsDown m w)
    → EndsDown m (if is_valid_transition p.state stopping then w else alone p)
ends_by m p w h rests ends = elim h.at [
  | inl e ↦ at_end (inl e) (inl e)
  | inr (inl e) ↦ at_end (inr e) (inr (inl e))
  | inr (inr up) ↦ rw (up-Running p up).stoppable (ends up)
]
  where
    at_end :
        (p.state ≡ stopped) ⊎ (p.state ≡ shutdown)
        → IsDown p
        → EndsDown m (if is_valid_transition p.state stopping then w else alone p)
    at_end e down = rw (at_rest p e) (record {
      run = record { result = tt; after = p; rest = []; is = rests (at_rest p e); kept = h };
      down = down;
    })

pub stop-EndsDown : (p : Process) → Settled p → EndsDown stop (to_stop p)
unfolding to_stop
stop-EndsDown p h =
    ends_by stop p (told ([] ∷ []) p) h (λ rest. (stop-AtRest p rest).0)
      (λ up. record {
        run = record {
          result = tt;
          after = stopped_from p;
          rest = [];
          is = stop-told p (up-Running p up) h.flights;
          kept = stopped-Settled p h;
        };
        down = inl refl;
      })

pub stop_immediately-EndsDown :
    (p : Process) → Settled p → EndsDown stop_immediately (to_stop_now p)
unfolding to_stop_now
stop_immediately-EndsDown p h =
    ends_by stop_immediately p (exits p []) h (λ rest. (stop-AtRest p rest).1)
      (λ up. record {
        run = record {
          result = tt;
          after = stopped_from p;
          rest = [];
          is = stop_immediately_lem p [] (up-Running p up);
          kept = stopped-Settled p h;
        };
        down = inl refl;
      })

pub shut_down-EndsDown : (p : Process) → Settled p → EndsDown shut_down (to_shut_down p)
unfolding to_shut_down
shut_down-EndsDown p h =
    ends_by shut_down p (shutting p) h (λ rest. (stop-AtRest p rest).2)
      (λ up. record {
        run = record {
          result = tt;
          after = shut_from p;
          rest = [];
          is = shut_down-told p up;
          kept = stopped-HasRequests 0 p (shut_from p) h refl refl refl refl refl (inr refl);
        };
        down = inr (inl refl);
      })

-- A sleep leaves a process that is down so, and brings one down for which it is enabled.
pub record Sleeps (config : ModelConfig) (s : Surroundings config) (p : Process) : Type 0 where
  pub run : Runs (sleep config s.sleep_answers) (to_sleep config s p)
  pub keeps_down : IsDown p → IsDown run.after
  pub goes_down : is_sleep_enabled config ≡ true → IsDown run.after

sleep-alone :
    (config : ModelConfig) (s : Surroundings config) (p : Process)
    → is_sleep_enabled config ≡ true
    → IsDown p
    → Settled p
    → Sleeps config s p
unfolding to_sleep sleep atomically interfered state_eq is_valid_transition
sleep-alone config s p on down h = record {
  run = record {
    result = tt;
    after = p;
    rest = [];
    is = elim down [
      | inl e ↦ ground (arith, on, e)
      | inr (inl e) ↦ ground (arith, on, e)
      | inr (inr e) ↦ ground (arith, on, e)
    ];
    kept = h;
  };
  keeps_down = λ d. d;
  goes_down = λ enabled. down;
}

sleep-ready :
    (config : ModelConfig) (s : Surroundings config) (p : Process)
    → is_sleep_enabled config ≡ true
    → p.state ≡ ready
    → IsUp p
    → Settled p
    → Sleeps config s p
unfolding to_sleep state_eq
sleep-ready config s p on e up h =
    elim (Bool-cases (send_requests s.sleep_answers config.sleep_endpoints)) [
      | inl ok ↦ record {
        run = record {
          result = tt;
          after = slept p;
          rest = [];
          is = ground (arith, on, e, ok, sleep_lem config s.sleep_answers p on ok e h.flights);
          kept = record {
            flights = h.flights;
            slots = h.slots;
            fresh = h.fresh;
            made = h.made;
            at = inr (inr (record { state = inr refl; cancels = up.cancels; opened = up.opened }));
          };
        };
        keeps_down = λ d. inr (inr refl);
        goes_down = λ enabled. inr (inr refl);
      }
      | inr bad ↦ record {
        run = record {
          result = tt;
          after = slept_badly p;
          rest = [];
          is =
              ground
                (arith, on, e, bad, sleep-fails config s.sleep_answers p on bad e up h.flights);
          kept = stopped-HasRequests 0 p (slept_badly p) h refl refl refl refl refl (inl refl);
        };
        keeps_down = λ d. inl refl;
        goes_down = λ enabled. inl refl;
      }
    ]

pub sleep-Sleeps :
    (config : ModelConfig) (s : Surroundings config) (p : Process) → Settled p → Sleeps config s p
unfolding to_sleep sleep
sleep-Sleeps config s p h = elim (Bool-cases (is_sleep_enabled config)) [
  | inr off ↦ record {
    run = record { result = tt; after = p; rest = []; is = ground (arith, off); kept = h };
    keeps_down = λ d. d;
    goes_down = λ enabled. absurd (true≢false (sym enabled ∙ off));
  }
  | inl on ↦ elim h.at [
    | inl e ↦ sleep-alone config s p on (inl e) h
    | inr (inl e) ↦ sleep-alone config s p on (inr (inl e)) h
    | inr (inr up) ↦ elim up.state [
      | inl e ↦ sleep-ready config s p on e up h
      | inr e ↦ sleep-alone config s p on (inr (inr e)) h
    ]
  ]
]

pub make_idle-EndsDown :
    (config : ModelConfig) (s : Surroundings config) (p : Process)
    → Settled p
    → EndsDown (make_idle config s.sleep_answers) (to_idle config s p)
unfolding to_idle make_idle
make_idle-EndsDown config s p h = elim (Bool-cases (is_sleep_enabled config)) [
  | inl on ↦
      let slept = sleep-Sleeps config s p h in
      rw on (record { run = slept.run; down = slept.goes_down on })
  | inr off ↦ rw off (stop-EndsDown p h)
]
