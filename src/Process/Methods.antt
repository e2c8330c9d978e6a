-- ===== src/Process/Methods.antt =====
-- Every method of a process keeps the relation of a frame, beside any other goroutines whose steps
-- the frame allows.
use llmsnap.Prelude.{ℕ, zero, suc, Option, Bool, true, ◌≡◌, arith}
use llmsnap.Config.{ModelConfig}
use llmsnap.Process.{Process, ProcessState, swap_state, force_state, install_command}
use llmsnap.Process.Schedule.{
  M, Action, act, fail_start, reset_failures, done_starting, done_sleeping, done_waking, swaps,
  forces, starting_done, sleeping_done, waking_done, installs, fails, resets, handled,
  flight_begins, flight_ends, counts, discounts, releases, acquires,
}
use llmsnap.Process.Stop.{stop_command, stop_immediately, stop, shut_down}
use llmsnap.Process.Start.{
  ReadyError, Poll, Launch, ready_turn, ready_check, abandon_start, become_ready, check_health,
  launch, join_start, own_start, swap_and_start, start,
}
use llmsnap.Process.Sleep.{
  fall_asleep, sleep, wake_up, wake, own_wake, join_wake, make_ready, make_idle,
}
use llmsnap.Process.Request.{
  Request, serve, finish_request, admit, proxy_request, unload_tick, concurrent_limit,
}
use llmsnap.Process.Frame.{
  Frame, Guarantee, rules, bind-Guarantee, atomically-Guarantee, if-Guarantee, return-Guarantee,
  modify-Guarantee,
}

module _ (F : Frame) where
  pub swaps-Keeps : (e n : ProcessState) (p : Process) → F.Keeps p (swap_state e n p).1
  unfolding act
  swaps-Keeps e n p = F.step (swaps e n) p (ground arith)

  pub forces-Keeps : (s : ProcessState) (p : Process) → F.Keeps p (force_state s p)
  unfolding act
  forces-Keeps s p = F.step (forces s) p (ground arith)

  pub installs-Keeps : (p : Process) → F.Keeps p (install_command p)
  unfolding act
  installs-Keeps p = F.step installs p (ground arith)

  pub fails-Keeps : (p : Process) → F.Keeps p (fail_start p)
  unfolding act
  fails-Keeps p = F.step fails p (ground arith)

  pub resets-Keeps : (p : Process) → F.Keeps p (reset_failures p)
  unfolding act
  resets-Keeps p = F.step resets p (ground arith)

  pub starting_done-Keeps : (p : Process) → F.Keeps p (done_starting p)
  unfolding act
  starting_done-Keeps p = F.step starting_done p (ground arith)

  pub sleeping_done-Keeps : (p : Process) → F.Keeps p (done_sleeping p)
  unfolding act
  sleeping_done-Keeps p = F.step sleeping_done p (ground arith)

  pub waking_done-Keeps : (p : Process) → F.Keeps p (done_waking p)
  unfolding act
  waking_done-Keeps p = F.step waking_done p (ground arith)

  ruleset sections = (
    rules, swaps-Keeps, forces-Keeps, installs-Keeps, fails-Keeps, resets-Keeps,
    starting_done-Keeps, sleeping_done-Keeps, waking_done-Keeps,
  )

  pub stop_command-Guarantee : Guarantee F stop_command
  unfolding stop_command
  stop_command-Guarantee = search sections depth 9

  pub stop_immediately-Guarantee : Guarantee F stop_immediately
  unfolding stop_immediately
  stop_immediately-Guarantee = search (sections, stop_command-Guarantee) depth 12

  pub stop-Guarantee : Guarantee F stop
  unfolding stop
  stop-Guarantee = search (sections, stop_immediately-Guarantee) depth 12

  pub shut_down-Guarantee : Guarantee F shut_down
  unfolding shut_down
  shut_down-Guarantee = search (sections, stop_command-Guarantee) depth 12

  pub ready_turn-Guarantee :
      (max : ℕ) (poll : Poll) (rest : M (Option ReadyError))
      → Guarantee F rest
      → Guarantee F (ready_turn max poll rest)
  unfolding ready_turn
  ready_turn-Guarantee max poll rest h = search (sections, stop_command-Guarantee) depth 12

  pub ready_check-Guarantee :
      (max : ℕ) (polls : ℕ → Poll) (fuel k : ℕ) → Guarantee F (ready_check max polls fuel k)
  unfolding ready_check
  ready_check-Guarantee max polls zero k = record { holds = λ w h. tt }
  ready_check-Guarantee max polls (suc fuel) k = record {
    holds =
        (ready_turn-Guarantee max (polls k) _ (ready_check-Guarantee max polls fuel (suc k))).holds;
  }

  pub abandon_start-Guarantee : Guarantee F abandon_start
  unfolding abandon_start
  abandon_start-Guarantee = search sections depth 12

  pub become_ready-Guarantee : Guarantee F become_ready
  unfolding become_ready
  become_ready-Guarantee = search sections depth 12

  pub check_health-Guarantee : (l : Launch) → Guarantee F (check_health l)
  unfolding check_health
  check_health-Guarantee l = search (sections, ready_check-Guarantee) depth 12

  pub launch-Guarantee : (l : Launch) → Guarantee F (launch l)
  unfolding launch
  launch-Guarantee l =
      search (sections, abandon_start-Guarantee, check_health-Guarantee, become_ready-Guarantee)
        depth 14

  pub join_start-Guarantee : Guarantee F join_start
  unfolding join_start
  join_start-Guarantee = search sections depth 12

  pub own_start-Guarantee : (l : Launch) → Guarantee F (own_start l)
  unfolding own_start
  own_start-Guarantee l = search (sections, launch-Guarantee) depth 12

  pub swap_and_start-Guarantee : (l : Launch) → Guarantee F (swap_and_start l)
  unfolding swap_and_start
  swap_and_start-Guarantee l = search (sections, own_start-Guarantee, join_start-Guarantee) depth 12

  pub start-Guarantee : (config : ModelConfig) (l : Launch) → Guarantee F (start config l)
  unfolding start
  start-Guarantee config l = search (sections, swap_and_start-Guarantee) depth 12

  pub fall_asleep-Guarantee :
      (config : ModelConfig) (answers : ℕ → Bool) → Guarantee F (fall_asleep config answers)
  unfolding fall_asleep
  fall_asleep-Guarantee config answers = search (sections, stop_immediately-Guarantee) depth 12

  pub sleep-Guarantee :
      (config : ModelConfig) (answers : ℕ → Bool) → Guarantee F (sleep config answers)
  unfolding sleep
  sleep-Guarantee config answers = search (sections, fall_asleep-Guarantee) depth 16

  pub wake_up-Guarantee :
      (config : ModelConfig) (answers : ℕ → Bool) (l : Launch)
      → Guarantee F (wake_up config answers l)
  unfolding wake_up
  wake_up-Guarantee config answers l =
      search (sections, stop_immediately-Guarantee, start-Guarantee) depth 12

  pub wake-Guarantee :
      (config : ModelConfig) (answers : ℕ → Bool) (l : Launch) → Guarantee F (wake config answers l)
  unfolding wake own_wake join_wake
  wake-Guarantee config answers l = search (sections, wake_up-Guarantee) depth 16

  pub make_ready-Guarantee :
      (config : ModelConfig) (answers : ℕ → Bool) (l : Launch)
      → Guarantee F (make_ready config answers l)
  unfolding make_ready
  make_ready-Guarantee config answers l =
      search (sections, wake-Guarantee, start-Guarantee) depth 12

  pub make_idle-Guarantee :
      (config : ModelConfig) (answers : ℕ → Bool) → Guarantee F (make_idle config answers)
  unfolding make_idle
  make_idle-Guarantee config answers = search (sections, sleep-Guarantee, stop-Guarantee) depth 12

  pub serve-Guarantee : (config : ModelConfig) (r : Request) → Guarantee F (serve config r)
  unfolding serve
  serve-Guarantee config r = search (sections, make_ready-Guarantee) depth 12

  pub unload_tick-Guarantee : (max_duration now : ℕ) → Guarantee F (unload_tick max_duration now)
  unfolding unload_tick
  unload_tick-Guarantee max_duration now = search (sections, stop-Guarantee) depth 16

-- A frame that allows the steps of requests too.
module _ (F : Frame) (all : F.requests ≡ true) where
  request-Keeps : (a : Action) (p : Process) → F.Keeps p (act a p)
  request-Keeps a p = F.step a p (rw all)

  finish_request-Guarantee : (now : ℕ) → Guarantee F (finish_request now)
  unfolding finish_request act
  finish_request-Guarantee now =
      bind-Guarantee _ _ (modify-Guarantee _ (request-Keeps (handled now))) λ _.
        bind-Guarantee _ _ (modify-Guarantee _ (request-Keeps discounts)) λ _.
          bind-Guarantee _ _ (modify-Guarantee _ (request-Keeps flight_ends))
            λ _. modify-Guarantee _ (request-Keeps releases)

  admit-Guarantee : (config : ModelConfig) (r : Request) → Guarantee F (admit config r)
  unfolding admit act
  admit-Guarantee config r =
      bind-Guarantee _ _
        (atomically-Guarantee _ (request-Keeps (acquires (concurrent_limit config))))
        λ acquired. if-Guarantee _ _ _ (return-Guarantee _) (
          bind-Guarantee _ _ (modify-Guarantee _ (request-Keeps flight_begins)) λ _.
            bind-Guarantee _ _ (modify-Guarantee _ (request-Keeps counts)) λ _.
              bind-Guarantee _ _ (serve-Guarantee F config r) λ reply.
                bind-Guarantee _ _ (finish_request-Guarantee r.ends_at) λ _. return-Guarantee reply)

  pub proxy_request-Guarantee :
      (config : ModelConfig) (r : Request) → Guarantee F (proxy_request config r)
  unfolding proxy_request
  proxy_request-Guarantee config r = search (rules, admit-Guarantee) depth 12
