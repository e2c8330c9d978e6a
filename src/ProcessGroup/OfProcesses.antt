-- ===== src/ProcessGroup/OfProcesses.antt =====
-- proxy/processgroup.go, proxy/process.go: the interface of a process filled by the model of a process. No
-- other goroutine interferes, a command exits when it is told to, and what starts, sleeps and wakes meet
-- comes with the process.
use mathlib.Core.Path.{subst}
use llmsnap.Prelude.{ap, sym}
use llmsnap.Process.Answered.{surrounded, asking, proxy_request-Settled}
use llmsnap.Process.Stop.{shut_down, stop, stop_immediately as stop_now}
use llmsnap.Process.Sleep.{is_sleep_enabled, make_idle, sleep}
use llmsnap.Process.Settled.{Settled, Surroundings}
use llmsnap.ProcessGroup.OneUp.{Promises}
use llmsnap.Process.Request.{Request, Reply, no_reverse_proxy, proxy_request}
use llmsnap.Process.Returns.{
  IsDown, make_idle-EndsDown, shut_down-EndsDown, sleep-Sleeps, stop_immediately-EndsDown, Runs,
  stop-EndsDown, to_idle, to_shut_down, to_sleep, to_stop, to_stop_now,
}
use llmsnap.ProcessGroup.{
  ProcessApi, StopStrategy, stop_immediately, stop_wait_for_inflight_request,
}
use llmsnap.Process.Schedule.{M, Outcome, World, done, blocked, exhausted}
use llmsnap.Process.{Process}
use llmsnap.Config.{ModelConfig}

-- A process with its configuration and what its starts, sleeps and wakes meet.
pub record Member : Type 0 where
  pub config : ModelConfig
  pub surroundings : Surroundings config
  pub process : Process
  pub settled : Settled process

-- The process after a run. One that does not return would leave it as it was; every run here returns.
abbrev pub process_of : {A : Type 0} → Process → Outcome A → Process
process_of p (done a w) = w.process
process_of p blocked = p
process_of p exhausted = p

abbrev pub reply_of : Outcome Reply → Reply
reply_of (done reply w) = reply
reply_of blocked = no_reverse_proxy
reply_of exhausted = no_reverse_proxy

abbrev pub with_process : (m : Member) (p : Process) → Settled p → Member
with_process m p h = record {
  config = m.config;
  surroundings = m.surroundings;
  process = p;
  settled = h;
}

pub run_of :
    {A : Type 0} {f : M A} {w : World} (p : Process) (P : Process → Type 0) (run : Runs f w)
    → P run.after
    → P (process_of p (f w))
run_of p P run h = subst P (sym (ap (process_of p) run.is)) h

abbrev pub stopped_member : StopStrategy → Member → Member
stopped_member stop_immediately m =
    with_process m (process_of m.process (stop_now (to_stop_now m.process))) (
      run_of m.process Settled (stop_immediately-EndsDown m.process m.settled).run
        (stop_immediately-EndsDown m.process m.settled).run.kept)
stopped_member stop_wait_for_inflight_request m =
    with_process m (process_of m.process (stop (to_stop m.process))) (
      run_of m.process Settled (stop-EndsDown m.process m.settled).run
        (stop-EndsDown m.process m.settled).run.kept)

abbrev pub idle_member : Member → Member
idle_member m =
    let ends = make_idle-EndsDown m.config m.surroundings m.process m.settled in
    with_process m
      (process_of m.process (
        make_idle m.config m.surroundings.sleep_answers
          (to_idle m.config m.surroundings m.process)))
      (run_of m.process Settled ends.run ends.run.kept)

abbrev pub sleeping_member : Member → Member
sleeping_member m =
    let slept = sleep-Sleeps m.config m.surroundings m.process m.settled in
    with_process m
      (process_of m.process
        (sleep m.config m.surroundings.sleep_answers (to_sleep m.config m.surroundings m.process)))
      (run_of m.process Settled slept.run slept.run.kept)

abbrev pub shut_member : Member → Member
shut_member m =
    let ends = shut_down-EndsDown m.process m.settled in
    with_process m (process_of m.process (shut_down (to_shut_down m.process)))
      (run_of m.process Settled ends.run ends.run.kept)

abbrev pub asked_member : Request → Member → Reply × Member
asked_member r m =
    let outcome =
      proxy_request m.config (surrounded m.surroundings r)
        (asking m.config m.surroundings m.process) in
    let answers = proxy_request-Settled m.config m.surroundings r m.process m.settled in
    (
      reply_of outcome,
      with_process m (process_of m.process outcome)
          (subst Settled (sym (ap (process_of m.process) answers.is)) answers.kept),
    )

abbrev pub process_api : ProcessApi Member
process_api = record {
  proxy_request = asked_member;
  make_idle = idle_member;
  stop = stopped_member;
  sleep = sleeping_member;
  shut_down = shut_member;
  is_sleep_enabled = λ m. is_sleep_enabled m.config;
}

abbrev pub MemberIsDown : Member → Type 0
MemberIsDown m = IsDown m.process

pub process_api-Promises : Promises process_api MemberIsDown
process_api-Promises = record {
  made_idle = λ m.
      let ends = make_idle-EndsDown m.config m.surroundings m.process m.settled in
      run_of m.process IsDown ends.run ends.down;
  stopped = stopped_down;
  shut = λ m.
      let ends = shut_down-EndsDown m.process m.settled in
      run_of m.process IsDown ends.run ends.down;
  slept = λ m h.
      let slept = sleep-Sleeps m.config m.surroundings m.process m.settled in
      run_of m.process IsDown slept.run (slept.keeps_down h);
}
  where
    stopped_down : (strategy : StopStrategy) (m : Member) → MemberIsDown (stopped_member strategy m)
    stopped_down stop_immediately m =
        let ends = stop_immediately-EndsDown m.process m.settled in
        run_of m.process IsDown ends.run ends.down
    stopped_down stop_wait_for_inflight_request m =
        let ends = stop-EndsDown m.process m.settled in run_of m.process IsDown ends.run ends.down
