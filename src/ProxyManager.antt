-- ===== src/ProxyManager.antt =====
-- proxy/proxymanager.go: the groups of processes behind one server, and the ways to them. A group is
-- taken with the key that it has in the manager's map, which is its id.
pub mod Keys
pub mod Paths
pub mod Requests
pub mod Handlers
pub mod Api
pub mod Exclusive
pub mod Routed
pub mod Bodies
pub mod Prefixes
pub mod New
pub mod Calls
pub mod Fits
pub mod Holder
pub mod OneUp
pub mod Fresh
pub mod Groups
pub mod Started
pub mod Running
pub mod Streams
pub mod Queued
pub mod Routes
pub mod Guarded
pub mod CaptureApi
mod Tests
use llmsnap.PeerProxy.{PeerProxy}
use llmsnap.ProcessGroup.{
  ProcessApi, ProcessGroup, StopStrategy, shut_down_group, stop_processes, has_member,
  make_idle_processes,
}
use llmsnap.Prelude.{
  ◌∷◌, [], Text, List, Option, none, put, some, if◌then◌else◌, not, text_eq, ◌&&◌,
}
use llmsnap.Config.{Config}

pub record ProxyManager (P : Type 0) : Type 0 where
  pub config : Config
  pub process_groups : List (Text × ProcessGroup P)
  pub peer_proxy : Option PeerProxy

unfoldable pub find_group_by_model_name :
    {P : Type 0} → Text → List (Text × ProcessGroup P) → Option (Text × ProcessGroup P)
find_group_by_model_name model_name [] = none
find_group_by_model_name model_name ((id, group) ∷ groups) =
    let rest = find_group_by_model_name model_name groups in
    if has_member model_name group then some (id, group) else rest

-- A group after a method that mutates it.
unfoldable pub set_group : {P : Type 0} → Text → ProcessGroup P → ProxyManager P → ProxyManager P
set_group id group pm = record pm { process_groups = put id group pm.process_groups }

module _ {P : Type 0} (api : ProcessApi P) where
  abbrev pub on_groups :
      (ProcessGroup P → ProcessGroup P)
      → List (Text × ProcessGroup P)
      → List (Text × ProcessGroup P)
  on_groups f [] = []
  on_groups f ((id, group) ∷ groups) = (id, f group) ∷ on_groups f groups

  -- `StopProcesses` under the manager's lock; the groups do not share a process.
  unfoldable pub stop_all : StopStrategy → ProxyManager P → ProxyManager P
  stop_all strategy pm = record pm {
    process_groups = on_groups (stop_processes api strategy) pm.process_groups;
  }

  unfoldable pub shut_down_all : ProxyManager P → ProxyManager P
  shut_down_all pm = record pm {
    process_groups = on_groups (shut_down_group api) pm.process_groups;
  }

  -- The loop of an exclusive group over the others.
  unfoldable pub idle_others : Text → List (Text × ProcessGroup P) → List (Text × ProcessGroup P)
  idle_others id [] = []
  idle_others id ((k, other) ∷ groups) =
      (
        k,
        if not (text_eq k id) && not other.persistent then make_idle_processes api other else other,
      )
      ∷ idle_others id groups

  unfoldable pub swap_found :
      Option (Text × ProcessGroup P)
      → ProxyManager P
      → Option (Text × ProcessGroup P) × ProxyManager P
  swap_found none pm = (none, pm)
  swap_found (some (id, group)) pm = (
    some (id, group),
    if group.exclusive then record pm { process_groups = idle_others id pm.process_groups } else pm,
  )

  -- `swapProcessGroup`: the group of a model, or none where that is an error.
  unfoldable pub swap_process_group :
      Text → ProxyManager P → Option (Text × ProcessGroup P) × ProxyManager P
  swap_process_group real_model_name pm =
      swap_found (find_group_by_model_name real_model_name pm.process_groups) pm
