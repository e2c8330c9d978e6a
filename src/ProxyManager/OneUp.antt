-- ===== src/ProxyManager/OneUp.antt =====
-- proxy/proxymanager.go: of the processes of all the groups that are not persistent, one at most is up.
use mathlib.Core.Option.{some-injective}
use mathlib.Core.Bool.{true≢false}
use llmsnap.ProxyManager.Fits.{Fits, find-Fits}
use llmsnap.ProcessGroup.Idle.{IdleOr, IdleBut, found_idle}
use llmsnap.ProxyManager.Calls.{ManagerCall, manages, manage}
use llmsnap.ProxyManager.Holder.{HasHolder, manage-HasHolder}
use llmsnap.ProcessGroup.OneUp.{Promises}
use llmsnap.Prelude.{refl, Text, List, find, ◌≡◌, some, ◌∙◌, ◌∷◌, false, inl, sym, inr, [], ◌⊎◌, ap}
use llmsnap.ProcessGroup.{ProcessApi, ProcessGroup, find_process}
use llmsnap.ProxyManager.{ProxyManager}

-- What is looked up in a group that is not persistent.
pub record Finds {P : Type 0} (pm : ProxyManager P) (id name : Text) (g : ProcessGroup P) (p : P)
    : Type 0 where
  pub group : find id pm.process_groups ≡ some g
  pub temporary : g.persistent ≡ false
  pub process : find_process name g.processes ≡ some p

module _ {P : Type 0} (Idle : P → Type 0) where
  -- Something that is up is the last process used of the group that holds the place.
  up_there :
      (pm : ProxyManager P) (id name : Text) (g : ProcessGroup P) (p : P) (h : HasHolder Idle pm)
      → Finds pm id name g p
      → ¬ Idle p
      → (id ≡ h.holder) × (name ≡ g.last_used_process)
  up_there pm id name g p h found up =
      by_kind (find-Fits Idle h.holder id g pm.process_groups h.fit found.group)
    where
      there : (last : Text) → IdleOr Idle last name p → name ≡ last
      there last (inl (e, some_name)) = e
      there last (inr idle) = absurd (up idle)

      none_up : IdleOr Idle [] name p → ⊥
      none_up (inl (e, some_name)) = some_name refl
      none_up (inr idle) = up idle

      holding : (id ≡ h.holder) ⊎ IdleBut Idle [] g.processes → id ≡ h.holder
      holding (inl e) = e
      holding (inr idle) = absurd (none_up (found_idle Idle [] name g.processes idle found.process))

      by_kind : Fits Idle h.holder id g → (id ≡ h.holder) × (name ≡ g.last_used_process)
      by_kind (inl kept) = absurd (true≢false (sym kept ∙ found.temporary))
      by_kind (inr fits) = (
        holding fits.alone,
        there g.last_used_process
            (found_idle Idle g.last_used_process name g.processes fits.swapped.idle found.process),
      )

  HasHolder-one_up :
      (pm : ProxyManager P) (id id' name name' : Text) (g g' : ProcessGroup P) (p p' : P)
      → HasHolder Idle pm
      → Finds pm id name g p
      → Finds pm id' name' g' p'
      → ¬ Idle p
      → ¬ Idle p'
      → (id ≡ id') × (name ≡ name')
  HasHolder-one_up pm id id' name name' g g' p p' h found found' up up' =
      (same_id, first.1 ∙ ap (λ x. x.last_used_process) same_group ∙ sym second.1)
    where
      first : (id ≡ h.holder) × (name ≡ g.last_used_process)
      first = up_there pm id name g p h found up

      second : (id' ≡ h.holder) × (name' ≡ g'.last_used_process)
      second = up_there pm id' name' g' p' h found' up'

      same_id : id ≡ id'
      same_id = first.0 ∙ sym second.0

      same_group : g ≡ g'
      same_group =
          some-injective g g'
            (sym found.group ∙ (ap (λ t. find t pm.process_groups) same_id ∙ found'.group))

module _ {P : Type 0} (api : ProcessApi P) (Idle : P → Type 0) (promises : Promises api Idle) where
  manages-HasHolder :
      (cs : List ManagerCall) (pm : ProxyManager P)
      → HasHolder Idle pm
      → HasHolder Idle (manages api cs pm)
  manages-HasHolder [] pm h = h
  manages-HasHolder (c ∷ cs) pm h =
      manages-HasHolder cs (manage api c pm) (manage-HasHolder api Idle promises c pm h)

  -- A manager each group of which is persistent, or swaps, is exclusive, has no member with the empty
  -- name, and has nothing up but the last process used of at most one of them: after any calls in turn
  -- of its handlers, of two processes found up in groups that are not persistent, both are the same one
  -- of the same group. The methods of a process are taken to keep their promises: stop, idle and
  -- shutdown leave it idle, and sleep leaves an idle one idle.
  pub manages-one_up :
      (cs : List ManagerCall) (pm : ProxyManager P) (id id' name name' : Text)
      (g g' : ProcessGroup P) (p p' : P)
      → HasHolder Idle pm
      → Finds (manages api cs pm) id name g p
      → Finds (manages api cs pm) id' name' g' p'
      → ¬ Idle p
      → ¬ Idle p'
      → (id ≡ id') × (name ≡ name')
  manages-one_up cs pm id id' name name' g g' p p' h =
      HasHolder-one_up Idle (manages api cs pm) id id' name name' g g' p p'
        (manages-HasHolder cs pm h)
