-- ===== src/Process/Tests.antt =====
-- proxy/process.go: the process on concrete inputs.
use llmsnap.Process.Streamed.{AllUpdates, seconds, opening, closing, status_updates_lem}
use llmsnap.Process.Loading.{StatusTick, status_updates, loading_remarks, new_status_writer}
use llmsnap.Process.Ready.{readied, start-nil}
use llmsnap.Process.Replies.{Answers, proxy_request_lem}
use llmsnap.Process.Request.{Reply}
use llmsnap.Process.Swap.{swap_all, swap_along, way_back, swaps_final}
use llmsnap.Process.Fuel.{make_ready-ends}
use llmsnap.Process.History.{run_call, requests, run_call-Evolves}
use llmsnap.Process.Race.{overtaken, second_exit, overtaken_panics}
use llmsnap.Process.Balance.{Balanced, proxy_request-Balanced}
use llmsnap.Process.Evolves.{Evolves}
use llmsnap.Process.Stop.{stop_immediately, stop_command}
use llmsnap.Process.Lifecycle.{
  Succeeds, alone, exits, started, stopped_from, start_lem, stop_immediately_lem, wake-sleep,
}
use llmsnap.Process.Sleep.{is_sleep_enabled, send_requests, send_from, make_ready, sleep}
use llmsnap.Process.Frame.{Ensures}
use llmsnap.Prelude.{
  text_eq, ◌≡◌, [], arith, codes, some, true, ◌≢◌, List, false, inr, none, pos, ◌∷◌, inl, ◌*◌, ◌⊎◌,
  refl, ◌<◌, ◌==◌, Text, length, take, ◌++◌, ltb,
}
use llmsnap.Process.Schedule.{World, acts, done, exhausted, ◌>>◌, swaps, settles, closes, blocked}
use llmsnap.Process.Request.{Request, proxy_request}
use llmsnap.Process.Start.{Launch, start}
use llmsnap.Config.{HttpEndpoint, ModelConfig, end}
use llmsnap.Process.{
  Process, new_process, asleep, ready, stopping, shutdown, ProcessState, closed_in, waking,
  sleep_pending, stopped, is_valid_transition, state_eq,
}

abbrev endpoint : HttpEndpoint
endpoint = record { endpoint = codes "/sleep"; method = codes "POST"; body = []; timeout = pos 0 }

abbrev config : ModelConfig
config = record {
  cmd = codes "serve";
  cmd_stop = [];
  proxy = codes "http://localhost:9000";
  aliases = [];
  env = [];
  check_endpoint = codes "/health";
  unload_after = pos 0;
  unlisted = false;
  use_model_name = [];
  sleep_mode = codes "enable";
  sleep_endpoints = endpoint ∷ [];
  wake_endpoints = endpoint ∷ [];
  name = [];
  description = [];
  concurrency_limit = pos 2;
  filters = record { strip_params = []; set_params = [] };
  macros = [];
  metadata = end;
  send_loading_state = none;
}

-- The second health check passes; the clock advances by 5 in each turn.
abbrev launch_at_5 : Launch
launch_at_5 = record {
  args = some (codes "serve" ∷ []);
  command_starts = true;
  health_url = true;
  check_endpoint = codes "/health";
  max_duration = 12;
  polls = λ k. record { elapsed = k * 5; healthy = k == 1 };
  fuel = 5;
}

abbrev running : Process
running = record new_process { state = ready; cancel_upstream = true; cmd_wait_chan = 1; made = 2 }

abbrev asked : Request
asked = record {
  reverse_proxy = true;
  streaming = false;
  is_chat_completions = true;
  wake_answers = λ i. true;
  launch = launch_at_5;
  ends_at = 40;
}

-- Another goroutine stops the process while a request is admitted.
abbrev stopped_meanwhile : World
stopped_meanwhile = record {
  process = running;
  others = [] ∷ (swaps ready stopping ∷ settles stopping ∷ closes ∷ []) ∷ [];
}

swaps_final_case :
    ((new_process.state ≡ shutdown)
      × ((es : List (ProcessState × ProcessState)) → swap_all es new_process ≡ new_process))
    ⊎ ((new_process.state ≢ shutdown)
        × ((swap_along (way_back new_process.state) new_process).state ≡ stopped))
swaps_final_case = swaps_final new_process

run_call-Evolves_example :
    Ensures (λ _ v. Evolves running v.process) (run_call config (requests asked) stopped_meanwhile)
run_call-Evolves_example = run_call-Evolves config (requests asked) stopped_meanwhile

proxy_request-Balanced_example :
    Ensures (λ _ v. Balanced running v.process) (proxy_request config asked stopped_meanwhile)
proxy_request-Balanced_example =
    proxy_request-Balanced config asked stopped_meanwhile (tt, ((refl, (refl, (refl, tt))), tt))

start-nil_example :
    Ensures
      (λ r v. (r ≢ none) ⊎ ((v.process.state ≡ ready) ⊎ (readied new_process < readied v.process)))
      (start config launch_at_5 (alone new_process))
start-nil_example = start-nil config launch_at_5 (alone new_process)

make_ready-ends_example : make_ready config (λ i. true) launch_at_5 stopped_meanwhile ≢ exhausted
make_ready-ends_example =
    make_ready-ends 5 config (λ i. true) launch_at_5 stopped_meanwhile
      (record { advances = λ k. omega arith; enough = omega arith })

launch_at_5-Succeeds : Succeeds config launch_at_5
launch_at_5-Succeeds = record {
  proxied = ground arith;
  args = ground arith;
  starts = refl;
  checks = inr (refl, (omega arith, inr (refl, (omega arith, inl refl))));
}

start_lem_example :
    start config launch_at_5 (alone new_process) ≡ done none (alone (started new_process))
start_lem_example = start_lem config launch_at_5 new_process refl launch_at_5-Succeeds

stop_immediately_lem_example :
    stop_immediately (exits running [])
    ≡ done tt (record { process = stopped_from running; others = [] })
unfolding is_valid_transition state_eq closed_in
stop_immediately_lem_example =
    stop_immediately_lem running [] (record { stoppable = refl; cancels = refl; opened = refl })

wake-sleep_example :
    (sleep config (λ i. true) >> make_ready config (λ i. true) launch_at_5) (alone running)
    ≡ done none (
        alone (record running {
          events =
              (waking, ready)
              ∷ (asleep, waking)
              ∷ (sleep_pending, asleep)
              ∷ (ready, sleep_pending)
              ∷ [];
        }))
unfolding is_sleep_enabled text_eq send_requests send_from
wake-sleep_example =
    wake-sleep config (λ i. true) (λ i. true) launch_at_5 running refl refl refl refl refl

abbrev being_stopped : Process
being_stopped = record running { state = stopping }

overtaken_panics_example :
    ((acts overtaken being_stopped).panicked ≡ false)
    × (closed_in (acts overtaken being_stopped).closed (acts overtaken being_stopped).cmd_wait_chan
        ≡ true)
    × (closed_in (acts overtaken being_stopped).closed 1 ≡ false)
    × ((acts second_exit (acts overtaken being_stopped)).panicked ≡ true)
    × (stop_command (record { process = being_stopped; others = [] ∷ overtaken ∷ second_exit ∷ [] })
        ≡ blocked)
unfolding closed_in
overtaken_panics_example =
    overtaken_panics being_stopped
      (record { stops = refl; cancels = refl; opened = refl; fresh = refl; older = omega arith })

proxy_request_lem_example :
    (reply : Reply) × (after : Process) × (proxy_request config asked (alone running)
      ≡ done reply (alone after))
    × Answers config 40 running reply after
proxy_request_lem_example = proxy_request_lem config asked running refl (inr refl)

-- A client that is gone after four messages.
status_updates_lem_example :
    let ticks : List StatusTick =
      record { at = 1; is_ready = false }
      ∷ record { at = 2; is_ready = false }
      ∷ record { at = 3; is_ready = true }
      ∷ [] in
    let s =
      status_updates loading_remarks
        (λ i. 2)
        0
        (codes "3.00")
        ticks
        (new_status_writer (codes "m") 4) in
    (middle : List Text) × AllUpdates loading_remarks middle
    × (length middle ≡ seconds ticks)
    × (s.sent ≡ take 4 (opening (codes "m") ++ (middle ++ closing (codes "3.00"))))
    × (s.status_codes ≡ (200 ∷ []))
    × (s.panicked ≡ ltb 4 2)
status_updates_lem_example =
    status_updates_lem loading_remarks (λ i. 2) (codes "m") (codes "3.00") 4 0
      (record { at = 1; is_ready = false }
        ∷ record { at = 2; is_ready = false }
        ∷ record { at = 3; is_ready = true }
        ∷ [])
