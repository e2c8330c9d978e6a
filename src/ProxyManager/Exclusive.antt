-- ===== src/ProxyManager/Exclusive.antt =====
-- proxy/proxymanager.go: a swap to an exclusive group.
use llmsnap.ProcessGroup.{ProcessApi, ProcessGroup, has_member, make_idle_processes}
use llmsnap.ProxyManager.{
  swap_process_group, ProcessApi, idle_others, ProxyManager, find_group_by_model_name, swap_found,
}
use mathlib.Core.Option.{some-injective}
use llmsnap.Prelude.{
  inr, inl, false, ◌∷◌, [], find, Text, List, ◌≡◌, some, if◌then◌else◌, not, true, text_eq, ◌&&◌,
  Bool-cases, Bool, ap, sym, ◌∙◌, text_eq_sound,
}

find-idle_others :
    {P : Type 0}
    → (api : ProcessApi P) (id k : Text) (groups : List (Text × ProcessGroup P))
      {group : ProcessGroup P}
    → find k groups ≡ some group
    → find k (idle_others api id groups)
      ≡ some (
          if not (text_eq k id) && not group.persistent
          then make_idle_processes api group
          else group)
unfolding find idle_others
find-idle_others api id k [] h = cc
find-idle_others {P = P} api id k ((l, g) ∷ groups) {group = group} h =
    elim (Bool-cases (text_eq l k)) [
      | inl here ↦
          ap (λ b. if b then some (idled l g) else find k (idle_others api id groups)) here
          ∙ ap some (
              ap (λ t. idled t g) (text_eq_sound l k here)
              ∙ ap (idled k) (
                  some-injective g group
                    (sym (ap (λ b. if b then some g else find k groups) here) ∙ h)))
      | inr away ↦
          ap (λ b. if b then some (idled l g) else find k (idle_others api id groups)) away
          ∙ find-idle_others api id k groups {group = group}
              (sym (ap (λ b. if b then some g else find k groups) away) ∙ h)
    ]
  where
    idled : Text → ProcessGroup P → ProcessGroup P
    idled t gr = if not (text_eq t id) && not gr.persistent then make_idle_processes api gr else gr

find_group_has :
    {P : Type 0}
    → (name id : Text) (groups : List (Text × ProcessGroup P)) (target : ProcessGroup P)
    → find_group_by_model_name name groups ≡ some (id, target)
    → has_member name target ≡ true
unfolding find_group_by_model_name
find_group_has name id [] target h = cc
find_group_has name id ((k, g) ∷ groups) target h = elim (Bool-cases (has_member name g)) [
  | inl here ↦
      ap (λ q. has_member name q.1)
        (sym (
          some-injective (k, g) (id, target)
            (sym (ap (λ b. if b then some (k, g) else find_group_by_model_name name groups) here)
              ∙ h)))
      ∙ here
  | inr away ↦
      find_group_has name id groups target
        (sym (ap (λ b. if b then some (k, g) else find_group_by_model_name name groups) away) ∙ h)
]

-- A model that has a group is given the first group that lists it; where that group is exclusive, every
-- other group that is not persistent has its processes made idle, and the others are left as they are.
pub swap_process_group_lem :
    {P : Type 0}
    → (api : ProcessApi P) (pm : ProxyManager P) (name id k : Text) (target group : ProcessGroup P)
    → find_group_by_model_name name pm.process_groups ≡ some (id, target)
    → find k pm.process_groups ≡ some group
    → let done = swap_process_group api name pm in
      (has_member name target ≡ true)
      × (done.0 ≡ some (id, target))
      × (find k done.1.process_groups
          ≡ some (
              if target.exclusive && (not (text_eq k id) && not group.persistent)
              then make_idle_processes api group
              else group))
unfolding swap_process_group swap_found
swap_process_group_lem api pm name id k target group h found = (
  find_group_has name id pm.process_groups target h,
  ap (λ x. (swap_found api x pm).0) h,
  ap (λ x. find k (swap_found api x pm).1.process_groups) h ∙ by_kind target.exclusive,
)
  where
    by_kind :
        (b : Bool)
        → find k
            (if b
              then record pm { process_groups = idle_others api id pm.process_groups }
              else pm).process_groups
          ≡ some (
              if b && (not (text_eq k id) && not group.persistent)
              then make_idle_processes api group
              else group)
    by_kind true = find-idle_others api id k pm.process_groups found
    by_kind false = found
