-- ===== src/ProcessGroup.antt =====
-- proxy/processgroup.go: a group of processes. What it calls of a process is an interface. Each operation
-- is taken as one step; the group's lock is not held throughout in the source.
pub mod Calls
pub mod New
pub mod Idle
pub mod OneUp
pub mod Kept
pub mod OfProcesses
mod Tests
use llmsnap.Prelude.{
  ◌∷◌, Bool, List, Option, Text, contains, if◌then◌else◌, none, some, not, text_eq, [], ◌&&◌,
}
use llmsnap.Process.Request.{Request, Reply}

pub data StopStrategy : Type 0 where
  stop_immediately stop_wait_for_inflight_request : StopStrategy

-- The methods of a process that a group calls, each as what it makes of the process.
pub record ProcessApi (P : Type 0) : Type 0 where
  pub proxy_request : Request → P → Reply × P
  pub make_idle : P → P
  pub stop : StopStrategy → P → P
  pub sleep : P → P
  pub shut_down : P → P
  pub is_sleep_enabled : P → Bool

-- `processes` is Go's map, with each name once; `members` are the group's members in the
-- configuration. The empty text in `last_used_process` means none.
pub record ProcessGroup (P : Type 0) : Type 0 where
  pub swap : Bool
  pub exclusive : Bool
  pub persistent : Bool
  pub members : List Text
  pub processes : List (Text × P)
  pub last_used_process : Text

-- What `ProxyRequest` does: an error, a nil process that panics, or a reply.
pub data Proxied : Type 0 where
  not_part_of_group nil_process : Proxied
  replied : Reply → Proxied

pub data GroupError : Type 0 where
  process_not_found sleep_not_supported : GroupError

unfoldable pub find_process : {P : Type 0} → Text → List (Text × P) → Option P
find_process name [] = none
find_process name ((k, p) ∷ ps) = if text_eq k name then some p else find_process name ps

-- A process after a method that mutates it.
unfoldable pub set_process : {P : Type 0} → Text → P → List (Text × P) → List (Text × P)
set_process name q [] = []
set_process name q ((k, p) ∷ ps) = (k, if text_eq k name then q else p) ∷ set_process name q ps

abbrev pub on_all : {P : Type 0} → (P → P) → List (Text × P) → List (Text × P)
on_all f [] = []
on_all f ((k, p) ∷ ps) = (k, f p) ∷ on_all f ps

unfoldable pub has_member : {P : Type 0} → Text → ProcessGroup P → Bool
has_member name pg = contains pg.members name

unfoldable pub get_member : {P : Type 0} → Text → ProcessGroup P → Option P
get_member name pg = if has_member name pg then find_process name pg.processes else none

module _ {P : Type 0} (api : ProcessApi P) where
  unfoldable pub serve_by : Text → Request → Option P → ProcessGroup P → Proxied × ProcessGroup P
  serve_by name r none pg = (nil_process, pg)
  serve_by name r (some p) pg =
      let done = api.proxy_request r p in
      (replied done.0, record pg { processes = set_process name done.1 pg.processes })

  unfoldable pub serve_on : Text → Request → ProcessGroup P → Proxied × ProcessGroup P
  serve_on name r pg = serve_by name r (find_process name pg.processes) pg

  -- The request to another model, once nothing else is up: a panic leaves the last process as it was.
  unfoldable pub mark_used : Text → Proxied × ProcessGroup P → Proxied × ProcessGroup P
  mark_used name (replied reply, pg) = (replied reply, record pg { last_used_process = name })
  mark_used name (not_part_of_group, pg) = (not_part_of_group, pg)
  mark_used name (nil_process, pg) = (nil_process, pg)

  unfoldable pub swap_from : Option P → Text → Request → ProcessGroup P → Proxied × ProcessGroup P
  swap_from none name r pg = (nil_process, pg)
  swap_from (some p) name r pg = mark_used name (
      serve_on name r
        (record pg { processes = set_process pg.last_used_process (api.make_idle p) pg.processes }))

  unfoldable pub swap_to : Text → Request → ProcessGroup P → Proxied × ProcessGroup P
  swap_to name r pg =
      if text_eq pg.last_used_process []
      then mark_used name (serve_on name r pg)
      else swap_from (find_process pg.last_used_process pg.processes) name r pg

  unfoldable pub group_request : Text → Request → ProcessGroup P → Proxied × ProcessGroup P
  group_request name r pg =
      if not (has_member name pg)
      then (not_part_of_group, pg)
      else if pg.swap && not (text_eq pg.last_used_process name)
      then swap_to name r pg
      else serve_on name r pg

  unfoldable pub stop_found :
      StopStrategy → Text → Option P → ProcessGroup P → Option GroupError × ProcessGroup P
  stop_found strategy name none pg = (some process_not_found, pg)
  stop_found strategy name (some p) pg = (
    none,
    record pg {
      last_used_process = if text_eq pg.last_used_process name then [] else pg.last_used_process;
      processes = set_process name (api.stop strategy p) pg.processes;
    },
  )

  unfoldable pub stop_process :
      StopStrategy → Text → ProcessGroup P → Option GroupError × ProcessGroup P
  stop_process strategy name pg = stop_found strategy name (find_process name pg.processes) pg

  unfoldable pub sleep_found : Text → Option P → ProcessGroup P → Option GroupError × ProcessGroup P
  sleep_found name none pg = (some process_not_found, pg)
  sleep_found name (some p) pg =
      if not (api.is_sleep_enabled p)
      then (some sleep_not_supported, pg)
      else (none, record pg { processes = set_process name (api.sleep p) pg.processes })

  unfoldable pub sleep_process : Text → ProcessGroup P → Option GroupError × ProcessGroup P
  sleep_process name pg = sleep_found name (find_process name pg.processes) pg

  unfoldable pub stop_processes : StopStrategy → ProcessGroup P → ProcessGroup P
  stop_processes strategy pg = record pg { processes = on_all (api.stop strategy) pg.processes }

  unfoldable pub make_idle_processes : ProcessGroup P → ProcessGroup P
  make_idle_processes pg = record pg { processes = on_all api.make_idle pg.processes }

  unfoldable pub shut_down_group : ProcessGroup P → ProcessGroup P
  shut_down_group pg = record pg { processes = on_all api.shut_down pg.processes }
