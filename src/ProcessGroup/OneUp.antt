-- ===== src/ProcessGroup/OneUp.antt =====
-- proxy/processgroup.go: in a group that swaps, one process at most is up.
use llmsnap.ProcessGroup.Idle.{
  IdleBut, IdleOr, all_idle, except_other, set-IdleBut, except_any, found_idle,
}
use llmsnap.Prelude.{
  Text, List, ◌≡◌, some, Bool-cases, text_eq, text_eq_sound, Bool, Option, contains, ◌≢◌, ap,
  if◌then◌else◌, none, refl, ◌&&◌, not,
}
use mathlib.Core.Path.{subst}
use mathlib.Core.Bool.{true≢false}
use llmsnap.Prelude.{◌∷◌, [], List, Text, ◌≡◌, inl, inr, sym, ◌∙◌, true, false}
use llmsnap.Process.Request.{Request}
use llmsnap.ProcessGroup.{
  ProcessApi, ProcessGroup, StopStrategy, group_request, stop_process, sleep_process,
  stop_processes, make_idle_processes, shut_down_group, find_process, set_process, serve_by,
  serve_on, mark_used, swap_from, swap_to, stop_found, sleep_found, has_member, not_part_of_group,
}
use llmsnap.ProcessGroup.Calls.{
  GroupCall, call, calls, requests, stops, sleeps, stops_all, idles_all, shuts_down,
}

-- What the methods of a process promise: these end with nothing running, and a process with nothing
-- running is not made to run by `Sleep`.
pub record Promises {P : Type 0} (api : ProcessApi P) (Idle : P → Type 0) : Type 0 where
  pub made_idle : (p : P) → Idle (api.make_idle p)
  pub stopped : (s : StopStrategy) (p : P) → Idle (api.stop s p)
  pub shut : (p : P) → Idle (api.shut_down p)
  pub slept : (p : P) → Idle p → Idle (api.sleep p)

-- A group that swaps, no member of which has the empty name: every process but the last used one is
-- idle.
pub record IsSwapped {P : Type 0} (Idle : P → Type 0) (pg : ProcessGroup P) : Type 0 where
  pub swaps : pg.swap ≡ true
  pub named : contains pg.members [] ≡ false
  pub idle : IdleBut Idle pg.last_used_process pg.processes

module _ {P : Type 0} (api : ProcessApi P) (Idle : P → Type 0) (promises : Promises api Idle) where
  -- The process named is served, and becomes the last used one.
  mark_used-IsSwapped :
      (name : Text) (r : Request) (pg : ProcessGroup P)
      → name ≢ []
      → IdleBut Idle name pg.processes
      → IsSwapped Idle pg
      → IsSwapped Idle (mark_used api name (serve_on api name r pg)).1
  unfolding serve_on mark_used serve_by
  mark_used-IsSwapped name r pg some_name others h = by_process (find_process name pg.processes)
    where
      by_process : (o : Option P) → IsSwapped Idle (mark_used api name (serve_by api name r o pg)).1
      by_process none = h
      by_process (some p) = record {
        swaps = h.swaps;
        named = h.named;
        idle =
            set-IdleBut Idle name name (api.proxy_request r p).1 pg.processes
              (inl (refl, some_name)) others;
      }

  serve_on-IsSwapped :
      (name : Text) (r : Request) (pg : ProcessGroup P)
      → name ≢ []
      → pg.last_used_process ≡ name
      → IsSwapped Idle pg
      → IsSwapped Idle (serve_on api name r pg).1
  unfolding serve_on serve_by
  serve_on-IsSwapped name r pg some_name e h = by_process (find_process name pg.processes)
    where
      by_process : (o : Option P) → IsSwapped Idle (serve_by api name r o pg).1
      by_process none = h
      by_process (some p) = record {
        swaps = h.swaps;
        named = h.named;
        idle =
            set-IdleBut Idle pg.last_used_process name (api.proxy_request r p).1 pg.processes
              (inl (sym e, λ none_used. some_name (sym e ∙ none_used))) h.idle;
      }

  swap_to-IsSwapped :
      (name : Text) (r : Request) (pg : ProcessGroup P)
      → name ≢ []
      → IsSwapped Idle pg
      → IsSwapped Idle (swap_to api name r pg).1
  unfolding swap_to swap_from
  swap_to-IsSwapped name r pg some_name h = elim (Bool-cases (text_eq pg.last_used_process [])) [
    | inl e ↦ rw e (
        mark_used-IsSwapped name r pg some_name
          (except_any Idle name pg.processes (
            subst (λ last. IdleBut Idle last pg.processes) (text_eq_sound pg.last_used_process [] e)
              h.idle))
          h)
    | inr ne ↦ rw ne (by_last (find_process pg.last_used_process pg.processes))
  ]
    where
      by_last : (o : Option P) → IsSwapped Idle (swap_from api o name r pg).1
      by_last none = h
      by_last (some p) =
          mark_used-IsSwapped name r
            (record pg {
              processes = set_process pg.last_used_process (api.make_idle p) pg.processes;
            })
            some_name
            (except_other Idle pg.last_used_process name (api.make_idle p) pg.processes
              (promises.made_idle p) h.idle)
            (record {
              swaps = h.swaps;
              named = h.named;
              idle =
                  except_other Idle pg.last_used_process pg.last_used_process (api.make_idle p)
                    pg.processes (promises.made_idle p) h.idle;
            })

  stop-IsSwapped :
      (strategy : StopStrategy) (name : Text) (o : Option P) (pg : ProcessGroup P)
      → IsSwapped Idle pg
      → IsSwapped Idle (stop_found api strategy name o pg).1
  unfolding stop_found
  stop-IsSwapped strategy name none pg h = h
  stop-IsSwapped strategy name (some p) pg h = record {
    swaps = h.swaps;
    named = h.named;
    idle = by_name (text_eq pg.last_used_process name) refl;
  }
    where
      by_name :
          (b : Bool)
          → text_eq pg.last_used_process name ≡ b
          → IdleBut Idle
              (if b then [] else pg.last_used_process)
              (set_process name (api.stop strategy p) pg.processes)
      by_name false e =
          set-IdleBut Idle pg.last_used_process name (api.stop strategy p) pg.processes
            (inr (promises.stopped strategy p)) h.idle
      by_name true e =
          subst (λ n. IdleBut Idle [] (set_process n (api.stop strategy p) pg.processes))
            (text_eq_sound pg.last_used_process name e)
            (except_other Idle pg.last_used_process [] (api.stop strategy p) pg.processes
              (promises.stopped strategy p) h.idle)

  sleep-IsSwapped :
      (name : Text) (pg : ProcessGroup P)
      → IsSwapped Idle pg
      → IsSwapped Idle (sleep_process api name pg).1
  unfolding sleep_process sleep_found
  sleep-IsSwapped name pg h = by_process (find_process name pg.processes) refl
    where
      slept_there :
          (p : P)
          → IdleOr Idle pg.last_used_process name p
          → IdleOr Idle pg.last_used_process name (api.sleep p)
      slept_there p (inl e) = inl e
      slept_there p (inr idle) = inr (promises.slept p idle)

      by_process :
          (o : Option P)
          → find_process name pg.processes ≡ o
          → IsSwapped Idle (sleep_found api name o pg).1
      by_process none e = h
      by_process (some p) e = elim (Bool-cases (api.is_sleep_enabled p)) [
        | inr off ↦ rw off h
        | inl on ↦ rw on (record {
          swaps = h.swaps;
          named = h.named;
          idle =
              set-IdleBut Idle pg.last_used_process name (api.sleep p) pg.processes
                (slept_there p (found_idle Idle pg.last_used_process name pg.processes h.idle e))
                h.idle;
        })
      ]

  group_request-IsSwapped :
      (name : Text) (r : Request) (pg : ProcessGroup P)
      → IsSwapped Idle pg
      → IsSwapped Idle (group_request api name r pg).1
  unfolding group_request has_member
  group_request-IsSwapped name r pg h = by_member (contains pg.members name) refl
    where
      some_name : contains pg.members name ≡ true → name ≢ []
      some_name e none_there =
          true≢false (sym e ∙ (ap (λ n. contains pg.members n) none_there ∙ h.named))

      by_last :
          (b : Bool)
          → text_eq pg.last_used_process name ≡ b
          → name ≢ []
          → IsSwapped Idle
              (if pg.swap && not b then swap_to api name r pg else serve_on api name r pg).1
      by_last false e some_name =
          subst
            (λ swap.
              IsSwapped Idle
                (if swap && true then swap_to api name r pg else serve_on api name r pg).1)
            (sym h.swaps) (swap_to-IsSwapped name r pg some_name h)
      by_last true e some_name =
          subst
            (λ swap.
              IsSwapped Idle
                (if swap && false then swap_to api name r pg else serve_on api name r pg).1)
            (sym h.swaps)
            (serve_on-IsSwapped name r pg some_name (text_eq_sound pg.last_used_process name e) h)

      by_member :
          (b : Bool)
          → contains pg.members name ≡ b
          → IsSwapped Idle
              (if not b
                then (not_part_of_group, pg)
                else if pg.swap && not (text_eq pg.last_used_process name)
                then swap_to api name r pg
                else serve_on api name r pg).1
      by_member false e = h
      by_member true e = by_last (text_eq pg.last_used_process name) refl (some_name e)

  pub call-IsSwapped :
      (c : GroupCall) (pg : ProcessGroup P) → IsSwapped Idle pg → IsSwapped Idle (call api c pg)
  unfolding stop_process stop_processes make_idle_processes shut_down_group
  call-IsSwapped (requests name r) pg h = group_request-IsSwapped name r pg h
  call-IsSwapped (stops strategy name) pg h =
      stop-IsSwapped strategy name (find_process name pg.processes) pg h
  call-IsSwapped (sleeps name) pg h = sleep-IsSwapped name pg h
  call-IsSwapped (stops_all strategy) pg h = record {
    swaps = h.swaps;
    named = h.named;
    idle =
        all_idle Idle (api.stop strategy) pg.last_used_process pg.processes
          (promises.stopped strategy);
  }
  call-IsSwapped idles_all pg h = record {
    swaps = h.swaps;
    named = h.named;
    idle = all_idle Idle api.make_idle pg.last_used_process pg.processes promises.made_idle;
  }
  call-IsSwapped shuts_down pg h = record {
    swaps = h.swaps;
    named = h.named;
    idle = all_idle Idle api.shut_down pg.last_used_process pg.processes promises.shut;
  }

  -- Whatever calls a group gets in turn that swaps and has no member with the empty name: if every
  -- process but the last used one is idle before them, so it is after them. The methods of a process
  -- are taken to keep their promises: stop, idle and shutdown leave it idle, and sleep leaves an idle
  -- one idle.
  pub calls-IsSwapped :
      (cs : List GroupCall) (pg : ProcessGroup P)
      → IsSwapped Idle pg
      → IsSwapped Idle (calls api cs pg)
  calls-IsSwapped [] pg h = h
  calls-IsSwapped (c ∷ cs) pg h = calls-IsSwapped cs (call api c pg) (call-IsSwapped c pg h)
