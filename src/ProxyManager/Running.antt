-- ===== src/ProxyManager/Running.antt =====
-- proxy/proxymanager.go, proxy/processgroup.go, proxy/process.go: from `New` on, one process at most is
-- ready beside the persistent groups.
use llmsnap.ProxyManager.Started.{new_proxy_manager-one_up}
use llmsnap.ProxyManager.OneUp.{Finds}
use llmsnap.ProxyManager.New.{new_proxy_manager}
use llmsnap.ProxyManager.Fresh.{AllTakeTurns}
use llmsnap.ProcessGroup.{ProcessGroup}
use llmsnap.ProxyManager.{ProxyManager, ProcessGroup}
use llmsnap.ProxyManager.Calls.{ManagerCall, manages}
use llmsnap.Process.Returns.{IsDown}
use llmsnap.ProcessGroup.OfProcesses.{Member, process_api, MemberIsDown, process_api-Promises}
use llmsnap.Prelude.{◌≡◌, Text, List, inl, arith, inr, some, refl}
use llmsnap.Process.Settled.{Surroundings, new_process-Settled}
use llmsnap.Process.{Process, ready, new_process}
use llmsnap.Config.{ModelConfig, Config}

-- `NewProcess`, for what each model's starts, sleeps and wakes meet.
abbrev pub new_member : ((m : ModelConfig) → Surroundings m) → Text → ModelConfig → Member
new_member surround name m = record {
  config = m;
  surroundings = surround m;
  process = new_process;
  settled = new_process-Settled;
}

not-IsDown : (p : Process) → p.state ≡ ready → ¬ IsDown p
not-IsDown p e (inl s) = ground (arith, e, s)
not-IsDown p e (inr (inl s)) = ground (arith, e, s)
not-IsDown p e (inr (inr s)) = ground (arith, e, s)

-- The manager that `New` makes over the model of a process, from a configuration each group of which is
-- persistent, or swaps, is exclusive, and has no member with the empty name: after any calls in turn of
-- its handlers, of two processes found ready in groups that are not persistent, both are the same one
-- of the same group. What is assumed of a process is in the model: no other goroutine interferes, a
-- command exits when it is told to, and a start succeeds or ends before the command is run.
pub processes-one_up :
    (surround : (m : ModelConfig) → Surroundings m) (config : Config) (cs : List ManagerCall)
    (pm : ProxyManager Member) (id id' name name' : Text) (g g' : ProcessGroup Member)
    (p p' : Member)
    → AllTakeTurns config.groups
    → new_proxy_manager (new_member surround) config ≡ some pm
    → Finds (manages process_api cs pm) id name g p
    → Finds (manages process_api cs pm) id' name' g' p'
    → p.process.state ≡ ready
    → p'.process.state ≡ ready
    → (id ≡ id') × (name ≡ name')
processes-one_up surround config cs pm id id' name name' g g' p p' turns made found found' up up' =
    new_proxy_manager-one_up process_api MemberIsDown process_api-Promises (new_member surround)
      config cs pm id id' name name' g g' p p' (λ member m. inl refl) turns made found found'
      (not-IsDown p.process up) (not-IsDown p'.process up')
