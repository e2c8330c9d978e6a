-- ===== src/Process/Triple.antt =====
-- Preconditions and postconditions of a method, beside other goroutines whose steps keep the
-- relation of a frame: a condition that the relation preserves survives what the others do.
use llmsnap.Prelude.{Bool, if◌then◌else◌, true, false}
use llmsnap.Process.{Process}
use llmsnap.Process.Frame.{Frame, Guarantee, Orderly, interfered-Kept, Ensures, Kept}
use llmsnap.Process.Schedule.{
  M, World, ◌>>=◌, return, atomically, Outcome, interfered, done, blocked, exhausted,
}

pub record Triple (F : Frame) {A : Type 0} (P : Process → Type 0) (m : M A)
    (Q : A → Process → Type 0) : Type 0 where
  pub holds :
      (w : World)
      → Orderly F.requests w.others
      → P w.process
      → Ensures (λ a v. Q a v.process × Orderly F.requests v.others) (m w)

abbrev pub Stable : Frame → (Process → Type 0) → Type 0
Stable F P = (p q : Process) → F.Keeps p q → P p → P q

module _ {F : Frame} {A : Type 0} where
  pub return-Triple : (Q : A → Process → Type 0) (a : A) → Triple F (Q a) (return a) Q
  return-Triple Q a = record { holds = λ w o h. (h, o) }

  pub atomically-Triple :
      (P : Process → Type 0) (Q : A → Process → Type 0) (f : Process → A × Process)
      → Stable F P
      → ((p : Process) → P p → Q (f p).0 (f p).1)
      → Triple F P (atomically f) Q
  unfolding atomically
  atomically-Triple P Q f s k = record {
    holds = λ w o h.
        let i = interfered-Kept F w o in
        (k (interfered w).process (s w.process (interfered w).process i.0 h), i.1);
  }

  pub Guarantee-Triple :
      (P : Process → Type 0) (m : M A) → Stable F P → Guarantee F m → Triple F P m (λ _. P)
  Guarantee-Triple P m s g = record { holds = λ w o h. kept w.process (m w) h (g.holds w o) }
    where
      kept :
          (p : Process) (o : Outcome A)
          → P p
          → Ensures (λ a v. Kept F p v) o
          → Ensures (λ a v. P v.process × Orderly F.requests v.others) o
      kept p (done a v) h e = (s p v.process e.0 h, e.1)
      kept p blocked h e = tt
      kept p exhausted h e = tt

  pub strengthen :
      {P P' : Process → Type 0} {m : M A} {Q : A → Process → Type 0}
      → ((p : Process) → P' p → P p)
      → Triple F P m Q
      → Triple F P' m Q
  strengthen k t = record { holds = λ w o h. t.holds w o (k w.process h) }

bind_from :
    {F : Frame} {A B : Type 0} (R : A → Process → Type 0) (Q : B → Process → Type 0) (o : Outcome A)
    (f : A → M B)
    → Ensures (λ a v. R a v.process × Orderly F.requests v.others) o
    → ((a : A) → Triple F (R a) (f a) Q)
    → Ensures
        (λ b v. Q b v.process × Orderly F.requests v.others)
        (elim o [ done a w ↦ f a w | blocked ↦ blocked | exhausted ↦ exhausted ])
bind_from R Q (done a w) f e k = (k a).holds w e.1 e.0
bind_from R Q blocked f e k = tt
bind_from R Q exhausted f e k = tt

pub bind-Triple :
    {F : Frame} {A B : Type 0} (P : Process → Type 0) (R : A → Process → Type 0)
    (Q : B → Process → Type 0) (m : M A) (f : A → M B)
    → Triple F P m R
    → ((a : A) → Triple F (R a) (f a) Q)
    → Triple F P (m >>= f) Q
bind-Triple P R Q m f t k = record { holds = λ w o h. bind_from R Q (m w) f (t.holds w o h) k }

pub if-Triple :
    {F : Frame} {A : Type 0} {P : Process → Type 0} {Q : A → Process → Type 0} (b : Bool)
    (m n : M A)
    → Triple F P m Q
    → Triple F P n Q
    → Triple F P (if b then m else n) Q
if-Triple true m n t u = t
if-Triple false m n t u = u
