-- ===== src/Process/Frame.antt =====
-- A relation between the process before and after that every step keeps, and the rules for
-- `Guarantee F m`: whatever the other goroutines do, the method `m` keeps the relation of `F`.
use llmsnap.Prelude.{
  ◌||◌, not, ◌≡◌, Bool, true, false, List, [], ◌∷◌, Option, none, some, if◌then◌else◌, Bool-cases,
  inl, inr,
}
use llmsnap.Process.{Process, SwapError, expected_state_mismatch, invalid_state_transition}
use llmsnap.Process.Schedule.{
  Action, act, flight_begins, flight_ends, counts, discounts, releases, handled, acquires, get,
  modify, acts, World, Outcome, done, blocked, exhausted, M, ◌>>=◌, return, on_none, on_swap,
  interfered, atomically, wait_from, wait_until,
}

-- The steps of a request's own bookkeeping.
abbrev pub is_request : Action → Bool
is_request flight_begins = true
is_request flight_ends = true
is_request counts = true
is_request discounts = true
is_request releases = true
is_request (handled now) = true
is_request (acquires limit) = true
is_request _ = false

-- With `requests` false, the steps of requests are left out.
abbrev pub allowed : Bool → Action → Bool
allowed requests a = requests || not (is_request a)

pub record Frame : Type 1 where
  pub requests : Bool
  pub Keeps : Process → Process → Type 0
  pub same : (p : Process) → Keeps p p
  pub chain : (p q r : Process) → Keeps p q → Keeps q r → Keeps p r
  pub step : (a : Action) (p : Process) → allowed requests a ≡ true → Keeps p (act a p)

abbrev pub AllAllowed : Bool → List Action → Type 0
AllAllowed r [] = Unit {0}
AllAllowed r (a ∷ b) = (allowed r a ≡ true) × AllAllowed r b

-- What the others are still to do is allowed.
abbrev pub Orderly : Bool → List (List Action) → Type 0
Orderly r [] = Unit {0}
Orderly r (b ∷ bs) = AllAllowed r b × Orderly r bs

-- A condition on the result and the world of an outcome that has them.
abbrev pub Ensures {ℓ κ} : {A : Type ℓ} → (A → World → Type κ) → Outcome A → Type κ
Ensures P (done a w) = P a w
Ensures P blocked = Unit
Ensures P exhausted = Unit

-- The relation holds from `p`, and the others stay orderly.
abbrev pub Kept : Frame → Process → World → Type 0
Kept F p v = F.Keeps p v.process × Orderly F.requests v.others

pub record Guarantee (F : Frame) {A : Type 0} (m : M A) : Type 0 where
  pub holds : (w : World) → Orderly F.requests w.others → Ensures (λ a v. Kept F w.process v) (m w)

pub acts-Keeps :
    (F : Frame) (b : List Action) (p : Process) → AllAllowed F.requests b → F.Keeps p (acts b p)
unfolding acts
acts-Keeps F [] p h = F.same p
acts-Keeps F (a ∷ b) p h = F.chain p (act a p) _ (F.step a p h.0) (acts-Keeps F b (act a p) h.1)

interfered_from :
    (F : Frame) (p : Process) (bs : List (List Action))
    → Orderly F.requests bs
    → Kept F p (interfered (record { process = p; others = bs }))
unfolding interfered
interfered_from F p [] h = (F.same p, tt)
interfered_from F p (b ∷ bs) h = (acts-Keeps F b p h.0, h.1)

pub interfered-Kept :
    (F : Frame) (w : World) → Orderly F.requests w.others → Kept F w.process (interfered w)
interfered-Kept F w h = interfered_from F w.process w.others h

pub return-Guarantee : {F : Frame} {A : Type 0} (a : A) → Guarantee F (return a)
return-Guarantee {F} a = record { holds = λ w h. (F.same w.process, h) }

pub atomically-Guarantee :
    {F : Frame} {A : Type 0} (f : Process → A × Process)
    → ((p : Process) → F.Keeps p (f p).1)
    → Guarantee F (atomically f)
unfolding atomically
atomically-Guarantee {F} f k = record {
  holds = λ w h.
      let i = interfered-Kept F w h in
      (F.chain w.process (interfered w).process _ i.0 (k (interfered w).process), i.1);
}

pub get-Guarantee : {F : Frame} {A : Type 0} (f : Process → A) → Guarantee F (get f)
get-Guarantee {F} f = atomically-Guarantee (λ p. (f p, p)) F.same

pub modify-Guarantee :
    {F : Frame} (f : Process → Process) → ((p : Process) → F.Keeps p (f p)) → Guarantee F (modify f)
modify-Guarantee f k = atomically-Guarantee (λ p. (tt, f p)) k

onward :
    {B : Type 0} (F : Frame) (p q : Process) (o : Outcome B)
    → F.Keeps p q
    → Ensures (λ b v. Kept F q v) o
    → Ensures (λ b v. Kept F p v) o
onward F p q (done b v) h e = (F.chain p q v.process h e.0, e.1)
onward F p q blocked h e = tt
onward F p q exhausted h e = tt

bind-Kept :
    {A B : Type 0} (F : Frame) (p : Process) (o : Outcome A) (f : A → M B)
    → Ensures (λ a v. Kept F p v) o
    → ((a : A) → Guarantee F (f a))
    → Ensures
        (λ b v. Kept F p v)
        (elim o [ done a w ↦ f a w | blocked ↦ blocked | exhausted ↦ exhausted ])
bind-Kept F p blocked f h g = tt
bind-Kept F p exhausted f h g = tt
bind-Kept F p (done a w) f h g = onward F p w.process (f a w) h.0 ((g a).holds w h.1)

pub bind-Guarantee :
    {F : Frame} {A B : Type 0} (m : M A) (f : A → M B)
    → Guarantee F m
    → ((a : A) → Guarantee F (f a))
    → Guarantee F (m >>= f)
bind-Guarantee {F} m f g k = record { holds = λ w h. bind-Kept F w.process (m w) f (g.holds w h) k }

pub if-Guarantee :
    {F : Frame} {A : Type 0} (b : Bool) (m n : M A)
    → Guarantee F m
    → Guarantee F n
    → Guarantee F (if b then m else n)
if-Guarantee true m n g h = g
if-Guarantee false m n g h = h

pub on_none-Guarantee :
    {F : Frame} {E A : Type 0} (e : Option E) (m : M A) (k : E → M A)
    → Guarantee F m
    → ((e : E) → Guarantee F (k e))
    → Guarantee F (on_none e m k)
unfolding on_none
on_none-Guarantee none m k g h = g
on_none-Guarantee (some e) m k g h = h e

pub on_swap-Guarantee :
    {F : Frame} {A : Type 0} (e : Option SwapError) (m n k : M A)
    → Guarantee F m
    → Guarantee F n
    → Guarantee F k
    → Guarantee F (on_swap e m n k)
unfolding on_swap
on_swap-Guarantee none m n k g h i = g
on_swap-Guarantee (some expected_state_mismatch) m n k g h i = h
on_swap-Guarantee (some invalid_state_transition) m n k g h i = i

wait_from-Kept :
    (F : Frame) (test : Process → Bool) (bs : List (List Action)) (p q : Process)
    → F.Keeps q p
    → Orderly F.requests bs
    → Ensures (λ a v. Kept F q v) (wait_from test bs p)
unfolding wait_from
wait_from-Kept F test [] p q h o = elim (Bool-cases (test p)) [
  | inl e ↦ rw e (h, o)
  | inr e ↦ rw e tt
]
wait_from-Kept F test (b ∷ bs) p q h o = elim (Bool-cases (test p)) [
  | inl e ↦ rw e (h, o)
  | inr e ↦
      rw e (wait_from-Kept F test bs (acts b p) q (F.chain q p _ h (acts-Keeps F b p o.0)) o.1)
]

pub wait_until-Guarantee : {F : Frame} (test : Process → Bool) → Guarantee F (wait_until test)
unfolding wait_until
wait_until-Guarantee {F} test = record {
  holds = λ w o. wait_from-Kept F test w.others w.process w.process (F.same w.process) o;
}

pub ruleset rules = (
  return-Guarantee, get-Guarantee, modify-Guarantee, atomically-Guarantee, bind-Guarantee,
  if-Guarantee, on_none-Guarantee, on_swap-Guarantee, wait_until-Guarantee,
)
