-- ===== src/ProcessGroup/Calls.antt =====
-- proxy/processgroup.go: any sequence of calls of a group.
use llmsnap.Prelude.{List, Text, ◌∷◌, []}
use llmsnap.Process.Request.{Request}
use llmsnap.ProcessGroup.{
  ProcessApi, ProcessGroup, StopStrategy, group_request, stop_process, sleep_process,
  stop_processes, make_idle_processes, shut_down_group,
}

pub data GroupCall : Type 0 where
  requests : Text → Request → GroupCall
  stops : StopStrategy → Text → GroupCall
  sleeps : Text → GroupCall
  stops_all : StopStrategy → GroupCall
  idles_all shuts_down : GroupCall

abbrev pub call : {P : Type 0} → ProcessApi P → GroupCall → ProcessGroup P → ProcessGroup P
call api (requests name r) pg = (group_request api name r pg).1
call api (stops strategy name) pg = (stop_process api strategy name pg).1
call api (sleeps name) pg = (sleep_process api name pg).1
call api (stops_all strategy) pg = stop_processes api strategy pg
call api idles_all pg = make_idle_processes api pg
call api shuts_down pg = shut_down_group api pg

abbrev pub calls : {P : Type 0} → ProcessApi P → List GroupCall → ProcessGroup P → ProcessGroup P
calls api [] pg = pg
calls api (c ∷ cs) pg = calls api cs (call api c pg)
