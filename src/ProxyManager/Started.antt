-- ===== src/ProxyManager/Started.antt =====
-- proxy/proxymanager.go: from `New` on, one process at most is up beside the persistent groups.
use llmsnap.ProxyManager.OneUp.{Finds, manages-one_up}
use llmsnap.ProxyManager.New.{new_proxy_manager}
use llmsnap.ProxyManager.Fresh.{AllTakeTurns, new_proxy_manager-HasHolder}
use llmsnap.ProxyManager.{ProxyManager}
use llmsnap.ProxyManager.Calls.{ManagerCall, manages}
use llmsnap.Config.{ModelConfig, Config}
use llmsnap.Prelude.{Text, List, ◌≡◌, some, []}
use llmsnap.ProcessGroup.OneUp.{Promises}
use llmsnap.ProcessGroup.{ProcessApi, ProcessGroup}

-- A manager that `New` makes with processes that are idle at first, from a configuration each group of
-- which is persistent, or swaps, is exclusive, and has no member with the empty name: after any calls
-- in turn of its handlers, of two processes found up in groups that are not persistent, both are the
-- same one of the same group. The methods of a process are taken to keep their promises: stop, idle
-- and shutdown leave it idle, and sleep leaves an idle one idle.
pub new_proxy_manager-one_up :
    {P : Type 0} (api : ProcessApi P) (Idle : P → Type 0) (promises : Promises api Idle)
    (make : Text → ModelConfig → P) (config : Config) (cs : List ManagerCall) (pm : ProxyManager P)
    (id id' name name' : Text) (g g' : ProcessGroup P) (p p' : P)
    → ((member : Text) (m : ModelConfig) → Idle (make member m))
    → AllTakeTurns config.groups
    → new_proxy_manager make config ≡ some pm
    → Finds (manages api cs pm) id name g p
    → Finds (manages api cs pm) id' name' g' p'
    → ¬ Idle p
    → ¬ Idle p'
    → (id ≡ id') × (name ≡ name')
new_proxy_manager-one_up api Idle promises make config cs pm id id' name name' g g' p p' fresh turns
      made =
    manages-one_up api Idle promises cs pm id id' name name' g g' p p'
      (new_proxy_manager-HasHolder make Idle fresh config [] turns made)
