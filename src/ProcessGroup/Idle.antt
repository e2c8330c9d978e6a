-- ===== src/ProcessGroup/Idle.antt =====
-- proxy/processgroup.go: the processes of a group that are idle.
use llmsnap.Prelude.{
  Text, List, ◌≡◌, some, ◌⊎◌, arith, Bool-cases, text_eq, text_eq_sound, Bool, ◌≢◌, if◌then◌else◌,
  refl,
}
use mathlib.Core.Path.{subst}
use mathlib.Core.Option.{some-injective}
use mathlib.Core.Bool.{true≢false}
use llmsnap.Prelude.{◌∷◌, [], List, Text, ◌≡◌, ◌⊎◌, inl, inr, sym, ◌∙◌, true, false, text_eq_iff}
use llmsnap.ProcessGroup.{find_process, set_process, on_all}

-- A process is idle, or it is the one named; the empty name names none.
abbrev pub IdleOr : {P : Type 0} → (P → Type 0) → Text → Text → P → Type 0
IdleOr Idle last k p = ((k ≡ last) × (last ≢ [])) ⊎ Idle p

abbrev pub IdleBut : {P : Type 0} → (P → Type 0) → Text → List (Text × P) → Type 0
IdleBut Idle last [] = Unit {0}
IdleBut Idle last ((k, p) ∷ ps) = IdleOr Idle last k p × IdleBut Idle last ps

module _ {P : Type 0} (Idle : P → Type 0) where
  -- The excepted process may become anything, and any other one idle.
  pub set-IdleBut :
      (last name : Text) (q : P) (ps : List (Text × P))
      → IdleOr Idle last name q
      → IdleBut Idle last ps
      → IdleBut Idle last (set_process name q ps)
  unfolding set_process
  set-IdleBut last name q [] either h = tt
  set-IdleBut last name q ((k, p) ∷ ps) either h = elim (Bool-cases (text_eq k name)) [
    | inl e ↦ rw e (renamed (text_eq_sound k name e) either, set-IdleBut last name q ps either h.1)
    | inr ne ↦ rw ne (h.0, set-IdleBut last name q ps either h.1)
  ]
    where
      renamed : k ≡ name → IdleOr Idle last name q → IdleOr Idle last k q
      renamed e (inl (e', some_name)) = inl (e ∙ e', some_name)
      renamed e (inr idle) = inr idle

  -- With the last one idle the exception may be any name.
  pub except_other :
      (last other : Text) (q : P) (ps : List (Text × P))
      → Idle q
      → IdleBut Idle last ps
      → IdleBut Idle other (set_process last q ps)
  unfolding set_process
  except_other last other q [] idle h = tt
  except_other last other q ((k, p) ∷ ps) idle h = elim (Bool-cases (text_eq k last)) [
    | inl e ↦ rw e (inr idle, except_other last other q ps idle h.1)
    | inr ne ↦ rw ne (other_idle ne h.0, except_other last other q ps idle h.1)
  ]
    where
      other_idle : text_eq k last ≡ false → IdleOr Idle last k p → IdleOr Idle other k p
      other_idle ne (inl (e, some_name)) = absurd (true≢false (sym ((text_eq_iff k last).1 e) ∙ ne))
      other_idle ne (inr idle) = inr idle

  -- Nothing is up, so nothing is up but any one.
  pub except_any :
      (other : Text) (ps : List (Text × P)) → IdleBut Idle [] ps → IdleBut Idle other ps
  except_any other [] h = tt
  except_any other ((k, p) ∷ ps) h = (idle_there h.0, except_any other ps h.1)
    where
      idle_there : IdleOr Idle [] k p → IdleOr Idle other k p
      idle_there (inl (e, some_name)) = absurd (some_name refl)
      idle_there (inr idle) = inr idle

  pub all_idle :
      (f : P → P) (last : Text) (ps : List (Text × P))
      → ((p : P) → Idle (f p))
      → IdleBut Idle last (on_all f ps)
  all_idle f last [] h = tt
  all_idle f last ((k, p) ∷ ps) h = (inr (h p), all_idle f last ps h)

  pub found_idle :
      (last name : Text) (ps : List (Text × P)) {p : P}
      → IdleBut Idle last ps
      → find_process name ps ≡ some p
      → IdleOr Idle last name p
  unfolding find_process
  found_idle last name [] h e = absurd (ground (arith, e))
  found_idle last name ((k, q) ∷ ps) {p} h e =
      by_name (text_eq k name) refl e h.0 (found_idle last name ps h.1)
    where
      by_name :
          (b : Bool)
          → text_eq k name ≡ b
          → (if b then some q else find_process name ps) ≡ some p
          → IdleOr Idle last k q
          → (find_process name ps ≡ some p → IdleOr Idle last name p)
          → IdleOr Idle last name p
      by_name true same e' (inl (e, some_name)) later =
          inl (sym (text_eq_sound k name same) ∙ e, some_name)
      by_name true same e' (inr idle) later = inr (subst Idle (some-injective q p e') idle)
      by_name false other e' front later = later e'
