-- ===== src/ProcessGroup/Kept.antt =====
-- proxy/processgroup.go: what the calls of a group leave as it was.
use llmsnap.ProcessGroup.Idle.{IdleBut, IdleOr, set-IdleBut, found_idle, all_idle}
use llmsnap.Process.Request.{Request}
use llmsnap.ProcessGroup.Calls.{
  GroupCall, requests, call, stops, sleeps, stops_all, idles_all, shuts_down,
}
use llmsnap.ProcessGroup.OneUp.{Promises}
use llmsnap.Prelude.{
  false, true, ◌≡◌, Text, Option, Bool, [], some, Bool-cases, if◌then◌else◌, none, inl, inr, not,
  refl, text_eq, ◌&&◌,
}
use llmsnap.ProcessGroup.{
  ProcessApi, ProcessGroup, group_request, mark_used, serve_on, sleep_found, stop_found,
  stop_process, swap_to, StopStrategy, serve_by, sleep_process, stop_processes, swap_from, Proxied,
  Request, make_idle_processes, replied, shut_down_group, find_process, not_part_of_group,
  set_process, nil_process, has_member,
}

-- The settings that the manager reads.
abbrev pub SameKind : {P : Type 0} → ProcessGroup P → ProcessGroup P → Type 0
SameKind pg pg' = (pg'.exclusive ≡ pg.exclusive) × (pg'.persistent ≡ pg.persistent)

module _ {P : Type 0} (api : ProcessApi P) where
  serve_on-SameKind :
      (name : Text) (r : Request) (pg : ProcessGroup P) → SameKind pg (serve_on api name r pg).1
  unfolding serve_on serve_by
  serve_on-SameKind name r pg = by_process (find_process name pg.processes)
    where
      by_process : (o : Option P) → SameKind pg (serve_by api name r o pg).1
      by_process none = (refl, refl)
      by_process (some p) = (refl, refl)

  mark_used-SameKind :
      (name : Text) (pg : ProcessGroup P) (done : Proxied × ProcessGroup P)
      → SameKind pg done.1
      → SameKind pg (mark_used api name done).1
  unfolding mark_used
  mark_used-SameKind name pg (not_part_of_group, pg') h = h
  mark_used-SameKind name pg (nil_process, pg') h = h
  mark_used-SameKind name pg (replied reply, pg') h = h

  swap_to-SameKind :
      (name : Text) (r : Request) (pg : ProcessGroup P) → SameKind pg (swap_to api name r pg).1
  unfolding swap_to swap_from
  swap_to-SameKind name r pg = elim (Bool-cases (text_eq pg.last_used_process [])) [
    | inl e ↦
        rw e (mark_used-SameKind name pg (serve_on api name r pg) (serve_on-SameKind name r pg))
    | inr ne ↦ rw ne (by_last (find_process pg.last_used_process pg.processes))
  ]
    where
      by_last : (o : Option P) → SameKind pg (swap_from api o name r pg).1
      by_last none = (refl, refl)
      by_last (some p) =
          let pg' = record pg {
            processes = set_process pg.last_used_process (api.make_idle p) pg.processes;
          } in
          mark_used-SameKind name pg (serve_on api name r pg') (serve_on-SameKind name r pg')

  group_request-SameKind :
      (name : Text) (r : Request) (pg : ProcessGroup P)
      → SameKind pg (group_request api name r pg).1
  unfolding group_request
  group_request-SameKind name r pg =
      by_tests (has_member name pg) (pg.swap && not (text_eq pg.last_used_process name))
    where
      by_tests :
          (b c : Bool)
          → SameKind pg
              (if not b
                then (not_part_of_group, pg)
                else if c
                then swap_to api name r pg
                else serve_on api name r pg).1
      by_tests false c = (refl, refl)
      by_tests true true = swap_to-SameKind name r pg
      by_tests true false = serve_on-SameKind name r pg

  stop_found-SameKind :
      (strategy : StopStrategy) (name : Text) (o : Option P) (pg : ProcessGroup P)
      → SameKind pg (stop_found api strategy name o pg).1
  unfolding stop_found
  stop_found-SameKind strategy name none pg = (refl, refl)
  stop_found-SameKind strategy name (some p) pg = (refl, refl)

  sleep_found-SameKind :
      (name : Text) (o : Option P) (pg : ProcessGroup P) → SameKind pg (sleep_found api name o pg).1
  unfolding sleep_found
  sleep_found-SameKind name none pg = (refl, refl)
  sleep_found-SameKind name (some p) pg = elim (Bool-cases (api.is_sleep_enabled p)) [
    | inl on ↦ rw on (refl, refl)
    | inr off ↦ rw off (refl, refl)
  ]

  -- No call of a group changes whether it is exclusive and whether it is persistent.
  pub call-SameKind : (c : GroupCall) (pg : ProcessGroup P) → SameKind pg (call api c pg)
  unfolding stop_process sleep_process stop_processes make_idle_processes shut_down_group
  call-SameKind (requests name r) pg = group_request-SameKind name r pg
  call-SameKind (stops strategy name) pg =
      stop_found-SameKind strategy name (find_process name pg.processes) pg
  call-SameKind (sleeps name) pg = sleep_found-SameKind name (find_process name pg.processes) pg
  call-SameKind (stops_all strategy) pg = (refl, refl)
  call-SameKind idles_all pg = (refl, refl)
  call-SameKind shuts_down pg = (refl, refl)

  module _ (Idle : P → Type 0) (promises : Promises api Idle) where
    stop_found-idle :
        (strategy : StopStrategy) (name : Text) (o : Option P) (pg : ProcessGroup P)
        → IdleBut Idle [] pg.processes
        → IdleBut Idle [] (stop_found api strategy name o pg).1.processes
    unfolding stop_found
    stop_found-idle strategy name none pg h = h
    stop_found-idle strategy name (some p) pg h =
        set-IdleBut Idle [] name (api.stop strategy p) pg.processes
          (inr (promises.stopped strategy p)) h

    sleep-idle :
        (name : Text) (pg : ProcessGroup P)
        → IdleBut Idle [] pg.processes
        → IdleBut Idle [] (sleep_process api name pg).1.processes
    unfolding sleep_process sleep_found
    sleep-idle name pg h = by_process (find_process name pg.processes) refl
      where
        slept_there : (p : P) → IdleOr Idle [] name p → IdleOr Idle [] name (api.sleep p)
        slept_there p (inl e) = inl e
        slept_there p (inr idle) = inr (promises.slept p idle)

        by_process :
            (o : Option P)
            → find_process name pg.processes ≡ o
            → IdleBut Idle [] (sleep_found api name o pg).1.processes
        by_process none e = h
        by_process (some p) e = elim (Bool-cases (api.is_sleep_enabled p)) [
          | inr off ↦ rw off h
          | inl on ↦ rw on (
              set-IdleBut Idle [] name (api.sleep p) pg.processes
                (slept_there p (found_idle Idle [] name pg.processes h e)) h)
        ]

    abbrev pub IsNoRequest : GroupCall → Type 0
    IsNoRequest (requests name r) = ⊥
    IsNoRequest _ = Unit {0}

    -- A group with nothing up has nothing up after any call but a request.
    pub call-idle :
        (c : GroupCall) (pg : ProcessGroup P)
        → IsNoRequest c
        → IdleBut Idle [] pg.processes
        → IdleBut Idle [] (call api c pg).processes
    unfolding stop_process stop_processes make_idle_processes shut_down_group
    call-idle (requests name r) pg quiet h = absurd quiet
    call-idle (stops strategy name) pg quiet h =
        stop_found-idle strategy name (find_process name pg.processes) pg h
    call-idle (sleeps name) pg quiet h = sleep-idle name pg h
    call-idle (stops_all strategy) pg quiet h =
        all_idle Idle (api.stop strategy) [] pg.processes (promises.stopped strategy)
    call-idle idles_all pg quiet h = all_idle Idle api.make_idle [] pg.processes promises.made_idle
    call-idle shuts_down pg quiet h = all_idle Idle api.shut_down [] pg.processes promises.shut
