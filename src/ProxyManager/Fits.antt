-- ===== src/ProxyManager/Fits.antt =====
-- proxy/proxymanager.go: the groups that share one place for a process that is up. It is left to those
-- that are not persistent.
use mathlib.Core.Path.{subst}
use mathlib.Core.Option.{some-injective}
use mathlib.Core.Bool.{true≢false}
use llmsnap.ProcessGroup.Idle.{IdleBut, all_idle}
use llmsnap.ProcessGroup.Kept.{IsNoRequest, call-SameKind, call-idle}
use llmsnap.ProcessGroup.Calls.{GroupCall, call, idles_all}
use llmsnap.ProcessGroup.OneUp.{Promises, IsSwapped, call-IsSwapped}
use llmsnap.ProxyManager.{find_group_by_model_name, idle_others, on_groups}
use llmsnap.ProcessGroup.{ProcessApi, ProcessGroup, make_idle_processes, has_member}
use llmsnap.Prelude.{
  sym, refl, false, ◌∷◌, Text, find, put, List, ◌≡◌, some, true, ◌⊎◌, arith, [], inl, inr, ◌∙◌,
  Bool, Bool-cases, if◌then◌else◌, text_eq, not, text_eq_sound, ◌&&◌,
}

-- A group that swaps and is exclusive, and has nothing up unless it is the one named `holder`.
pub record FitsAlone {P : Type 0} (Idle : P → Type 0) (holder id : Text) (g : ProcessGroup P)
    : Type 0 where
  pub exclusive : g.exclusive ≡ true
  pub swapped : IsSwapped Idle g
  pub alone : (id ≡ holder) ⊎ IdleBut Idle [] g.processes

abbrev pub Fits : {P : Type 0} → (P → Type 0) → Text → Text → ProcessGroup P → Type 0
Fits Idle holder id g = (g.persistent ≡ true) ⊎ FitsAlone Idle holder id g

abbrev pub AllFit : {P : Type 0} → (P → Type 0) → Text → List (Text × ProcessGroup P) → Type 0
AllFit Idle holder [] = Unit {0}
AllFit Idle holder ((id, g) ∷ groups) = Fits Idle holder id g × AllFit Idle holder groups

module _ {P : Type 0} (Idle : P → Type 0) where
  pub put-AllFit :
      (holder id : Text) (g : ProcessGroup P) (groups : List (Text × ProcessGroup P))
      → Fits Idle holder id g
      → AllFit Idle holder groups
      → AllFit Idle holder (put id g groups)
  unfolding put
  put-AllFit holder id g [] fits h = (fits, tt)
  put-AllFit holder id g ((k, g') ∷ groups) fits h = elim (Bool-cases (text_eq k id)) [
    | inl e ↦ rw e (subst (λ t. Fits Idle holder t g) (sym (text_eq_sound k id e)) fits, h.1)
    | inr ne ↦ rw ne (h.0, put-AllFit holder id g groups fits h.1)
  ]

  pub on_groups-AllFit :
      (api : ProcessApi P) (holder : Text) (f : ProcessGroup P → ProcessGroup P)
      (groups : List (Text × ProcessGroup P))
      → ((id : Text) (g : ProcessGroup P) → Fits Idle holder id g → Fits Idle holder id (f g))
      → AllFit Idle holder groups
      → AllFit Idle holder (on_groups api f groups)
  on_groups-AllFit api holder f [] keeps h = tt
  on_groups-AllFit api holder f ((id, g) ∷ groups) keeps h =
      (keeps id g h.0, on_groups-AllFit api holder f groups keeps h.1)

  pub find_group_by_model_name-Fits :
      (holder name id : Text) (g : ProcessGroup P) (groups : List (Text × ProcessGroup P))
      → AllFit Idle holder groups
      → find_group_by_model_name name groups ≡ some (id, g)
      → Fits Idle holder id g
  unfolding find_group_by_model_name
  find_group_by_model_name-Fits holder name id g [] h e = absurd (ground (arith, e))
  find_group_by_model_name-Fits holder name id g ((k, g') ∷ groups) h e =
      by_member (has_member name g') e (find_group_by_model_name-Fits holder name id g groups h.1)
    where
      by_member :
          (b : Bool)
          → (if b then some (k, g') else find_group_by_model_name name groups) ≡ some (id, g)
          → (find_group_by_model_name name groups ≡ some (id, g) → Fits Idle holder id g)
          → Fits Idle holder id g
      by_member true e later =
          subst (λ q. Fits Idle holder q.0 q.1) (some-injective (k, g') (id, g) e) h.0
      by_member false e later = later e

  pub find-Fits :
      (holder id : Text) (g : ProcessGroup P) (groups : List (Text × ProcessGroup P))
      → AllFit Idle holder groups
      → find id groups ≡ some g
      → Fits Idle holder id g
  unfolding find
  find-Fits holder id g [] h e = absurd (ground (arith, e))
  find-Fits holder id g ((k, g') ∷ groups) h e =
      by_name (text_eq k id) refl e (find-Fits holder id g groups h.1)
    where
      by_name :
          (b : Bool)
          → text_eq k id ≡ b
          → (if b then some g' else find id groups) ≡ some g
          → (find id groups ≡ some g → Fits Idle holder id g)
          → Fits Idle holder id g
      by_name true same e later =
          subst (λ t. Fits Idle holder t g) (text_eq_sound k id same)
            (subst (Fits Idle holder k) (some-injective g' g e) h.0)
      by_name false other e later = later e

  module _ (api : ProcessApi P) (promises : Promises api Idle) where
    call-FitsAlone :
        (c : GroupCall) (holder id : Text) (g : ProcessGroup P)
        → ((id ≡ holder) ⊎ IsNoRequest api Idle promises c)
        → FitsAlone Idle holder id g
        → FitsAlone Idle holder id (call api c g)
    call-FitsAlone c holder id g either h = record {
      exclusive = (call-SameKind api c g).0 ∙ h.exclusive;
      swapped = call-IsSwapped api Idle promises c g h.swapped;
      alone = still either h.alone;
    }
      where
        still :
            ((id ≡ holder) ⊎ IsNoRequest api Idle promises c)
            → ((id ≡ holder) ⊎ IdleBut Idle [] g.processes)
            → (id ≡ holder) ⊎ IdleBut Idle [] (call api c g).processes
        still (inl e) a = inl e
        still (inr quiet) (inl e) = inl e
        still (inr quiet) (inr idle) = inr (call-idle api Idle promises c g quiet idle)

    -- A call that is no request, or is one to the holder, leaves a group fitting.
    pub call-Fits :
        (c : GroupCall) (holder id : Text) (g : ProcessGroup P)
        → ((id ≡ holder) ⊎ IsNoRequest api Idle promises c)
        → Fits Idle holder id g
        → Fits Idle holder id (call api c g)
    call-Fits c holder id g either (inl kept) = inl ((call-SameKind api c g).1 ∙ kept)
    call-Fits c holder id g either (inr fits) = inr (call-FitsAlone c holder id g either fits)

    -- Once the others are idle the place is the one of the group named.
    pub idle_others-AllFit :
        (holder id : Text) (groups : List (Text × ProcessGroup P))
        → AllFit Idle holder groups
        → AllFit Idle id (idle_others api id groups)
    unfolding idle_others make_idle_processes
    idle_others-AllFit holder id [] h = tt
    idle_others-AllFit holder id ((k, g) ∷ groups) h =
        (by_name (text_eq k id) refl g.persistent refl h.0, idle_others-AllFit holder id groups h.1)
      where
        by_name :
            (b : Bool)
            → text_eq k id ≡ b
            → (c : Bool) → g.persistent ≡ c
            → Fits Idle holder k g
            → Fits Idle id k (if not b && not c then make_idle_processes api g else g)
        by_name true same true kept fits = inl kept
        by_name false other true kept fits = inl kept
        by_name b e false left (inl kept) = absurd (true≢false (sym kept ∙ left))
        by_name true same false left (inr fits) = inr (record {
          exclusive = fits.exclusive;
          swapped = fits.swapped;
          alone = inl (text_eq_sound k id same);
        })
        by_name false other false left (inr fits) = inr (record {
          exclusive = fits.exclusive;
          swapped = call-IsSwapped api Idle promises idles_all g fits.swapped;
          alone = inr (all_idle Idle api.make_idle [] g.processes promises.made_idle);
        })
