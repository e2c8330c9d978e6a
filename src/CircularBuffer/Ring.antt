-- ===== src/CircularBuffer/Ring.antt =====
-- proxy/logMonitor.go: a short write, seen as a ring.
use llmsnap.Prelude.{
  List, ℕ, ◌<◌, drop, length, ◌+◌, ◌++◌, ◌≡◌, ◌≤◌, ◌⊎◌, take, ◌∷◌, ap, suc, [], arith, refl,
  drop_front, length-append, length-take, take_all, ◌-◌, drop-append_le, drop_all, take_front,
  length-drop, drop-drop, ◌∙◌, drop-append_ge, sym, take-append-drop, min, ◌%◌, Bool-cases, inl,
  inr, leb, tests,
}
use native.Mathlib.Nat.{mod-eq_of_lt, mod_self}
use mathlib.Core.List.{append-nil, append_assoc}
use llmsnap.CircularBuffer.{CircularBuffer, copy, copy_at, write_short}

-- The whole ring, from the oldest position on.
abbrev pub ring : CircularBuffer → List ℕ
ring cb = drop cb.head cb.bytes ++ take cb.head cb.bytes

pub length-ring : (cb : CircularBuffer) → length (ring cb) ≡ length cb.bytes
length-ring cb = omega (
  arith,
  length-append (drop cb.head cb.bytes) (take cb.head cb.bytes),
  length-drop cb.head cb.bytes,
  length-take cb.head cb.bytes,
)

pub lt_or_eq : {a b : ℕ} → a ≤ b → (a < b) ⊎ (a ≡ b)
lt_or_eq le = ground arith

pub copy_lem :
    (dst src : List ℕ) → length src ≤ length dst → copy dst src ≡ src ++ drop (length src) dst
unfolding copy
copy_lem [] [] h = refl
copy_lem [] (s ∷ src) h = absurd (omega arith)
copy_lem (d ∷ dst) [] h = refl
copy_lem (d ∷ dst) (s ∷ src) h = ap (λ l. s ∷ l) (copy_lem dst src (omega arith))

pub length-copy : (dst src : List ℕ) → length (copy dst src) ≡ length dst
unfolding copy
length-copy [] src = refl
length-copy (d ∷ dst) [] = refl
length-copy (d ∷ dst) (s ∷ src) = ap suc (length-copy dst src)

-- `copy(dst[i:], src)` where the source fits.
copy_at_end :
    (i : ℕ) (dst src : List ℕ)
    → i + length src ≤ length dst
    → copy_at i (length dst) dst src ≡ take i dst ++ src ++ drop (i + length src) dst
unfolding copy_at
copy_at_end i dst src h = rw (take_all (length dst) dst (omega arith)) (
    rw (drop_all (length dst) dst (omega arith)) (
      rw (copy_lem (drop i dst) src (omega (arith, length-drop i dst)))
        (rw (drop-drop (length src) i dst) (simp (append_assoc, append-nil)))))

-- `copy(dst[:len(src)], src)`.
copy_at_start :
    (dst src : List ℕ)
    → length src ≤ length dst
    → copy_at 0 (length src) dst src ≡ src ++ drop (length src) dst
unfolding copy_at
copy_at_start dst src h =
    rw (copy_lem (take (length src) dst) src (omega (arith, length-take (length src) dst))) (
      rw
        (drop_all (length src) (take (length src) dst)
          (omega (arith, length-take (length src) dst)))
        (ap (λ l. l ++ drop (length src) dst) (append-nil src)))

-- What a short write leaves: the ring forgets its oldest bytes for the new ones.
pub record Wrote (cb : CircularBuffer) (p : List ℕ) (after : CircularBuffer) : Type 0 where
  pub kept : length after.bytes ≡ length cb.bytes
  pub within : after.head < length cb.bytes
  pub moved : ring after ≡ drop (length p) (ring cb) ++ p

module _ (d p : List ℕ) (h : ℕ) (in_range : h < length d) (short : length p < length d) where
  pub old_ring :
      (n : ℕ) → n ≤ length d - h → drop n (drop h d ++ take h d) ≡ drop (h + n) d ++ take h d
  old_ring n le =
      drop-append_le n (drop h d) (take h d) (omega (arith, length-drop h d))
      ∙ ap (λ l. l ++ take h d) (drop-drop n h d)

  -- No wrap.
  one_part : List ℕ
  one_part = take h d ++ p ++ drop (h + length p) d

  length-front : h + length p ≡ length (take h d ++ p)
  length-front = omega (arith, length-append (take h d) p, length-take h d)

  one_part_ring :
      h + length p < length d
      → drop (h + length p) one_part ++ take (h + length p) one_part
        ≡ drop (length p) (drop h d ++ take h d) ++ p
  unfolding one_part
  one_part_ring lt =
      rw (drop_front (h + length p) (take h d ++ p) (drop (h + length p) d) length-front) (
        rw (take_front (h + length p) (take h d ++ p) (drop (h + length p) d) length-front) (
          rw (old_ring (length p) (omega arith))
            (sym (append_assoc (drop (h + length p) d) (take h d) p))))

  full_part_ring : h + length p ≡ length d → one_part ≡ drop (length p) (drop h d ++ take h d) ++ p
  unfolding one_part
  full_part_ring e =
      rw (old_ring (length p) (omega arith))
        (rw (drop_all (h + length p) d (omega arith)) (append-nil (take h d ++ p)))

  -- With a wrap, after the first `f` bytes.
  two_parts : ℕ → List ℕ
  two_parts f = drop f p ++ drop (length p - f) (take h d ++ take f p)

  length-rest : (f : ℕ) → f ≡ length d - h → f < length p → length p - f ≡ length (drop f p)
  length-rest f e lt = omega (arith, length-drop f p)

  two_parts_ring :
      (f : ℕ)
      → f ≡ length d - h
      → f < length p
      → drop (length p - f) (two_parts f) ++ take (length p - f) (two_parts f)
        ≡ drop (length p) (drop h d ++ take h d) ++ p
  unfolding two_parts
  two_parts_ring f e lt =
      rw
        (drop_front (length p - f) (drop f p) (drop (length p - f) (take h d ++ take f p))
          (length-rest f e lt))
        (rw
          (take_front (length p - f) (drop f p) (drop (length p - f) (take h d ++ take f p))
            (length-rest f e lt))
          (rw (drop-append_le (length p - f) (take h d) (take f p) (omega (arith, length-take h d)))
            (rw (drop-append_ge (length p) (drop h d) (take h d) (omega (arith, length-drop h d))) (
              rw (length-drop h d) (
                rw (sym e) (
                  rw (append_assoc (drop (length p - f) (take h d)) (take f p) (drop f p))
                    (rw (take-append-drop f p) refl)))))))

  wrapped_bytes :
      (f : ℕ)
      → f ≡ length d - h
      → f < length p
      → copy_at 0 (length p - f) (copy_at h (length d) d (take f p)) (drop f p) ≡ two_parts f
  unfolding two_parts
  wrapped_bytes f e lt = rw (copy_at_end h d (take f p) (omega (arith, length-take f p))) (
      rw (drop_all (h + length (take f p)) d (omega (arith, length-take f p))) (
        rw (append-nil (take h d ++ take f p)) (
          rw (length-rest f e lt) (
            copy_at_start (take h d ++ take f p) (drop f p) (
              omega (
                arith,
                length-append (take h d) (take f p),
                length-take h d,
                length-take f p,
                length-drop f p,
              ))))))

  length-two_parts : (f : ℕ) → f ≡ length d - h → f < length p → length (two_parts f) ≡ length d
  unfolding two_parts
  length-two_parts f e lt = omega (
    arith,
    length-append (drop f p) (drop (length p - f) (take h d ++ take f p)),
    length-drop (length p - f) (take h d ++ take f p),
    length-append (take h d) (take f p),
    length-take h d,
    length-take f p,
    length-drop f p,
  )

  length-one_part : h + length p ≤ length d → length one_part ≡ length d
  unfolding one_part
  length-one_part le = omega (
    arith,
    length-append (take h d ++ p) (drop (h + length p) d),
    length-append (take h d) p,
    length-take h d,
    length-drop (h + length p) d,
  )

  fits :
      (size : ℕ)
      → h + length p ≤ length d
      → Wrote
          (record { bytes = d; head = h; size = size })
          p
          (record {
            bytes = one_part;
            head = (h + length p) % length d;
            size = min (size + length p) (length d);
          })
  fits size le = elim (lt_or_eq le) [
    | inl lt ↦
        rw (mod-eq_of_lt lt)
          (record { kept = length-one_part le; within = lt; moved = one_part_ring lt })
    | inr e ↦ rw (e) (
        rw (mod_self (length d)) (record {
          kept = length-one_part le;
          within = omega arith;
          moved = append-nil one_part ∙ full_part_ring e;
        }))
  ]

  wraps :
      (size : ℕ) (f : ℕ)
      → f ≡ length d - h
      → f < length p
      → Wrote
          (record { bytes = d; head = h; size = size })
          p
          (record {
            bytes = two_parts f;
            head = length p - f;
            size = min (size + length p) (length d);
          })
  wraps size f e lt = record {
    kept = length-two_parts f e lt;
    within = omega arith;
    moved = two_parts_ring f e lt;
  }

pub write_short_lem :
    (cb : CircularBuffer) (p : List ℕ)
    → cb.head < length cb.bytes
    → length p < length cb.bytes
    → Wrote cb p (write_short cb p)
unfolding write_short one_part
write_short_lem cb p h short = elim (Bool-cases (leb (length p) (length cb.bytes - cb.head))) [
  | inl fit ↦ rw (fit) (
      rw (copy_at_end cb.head cb.bytes p (omega tests))
        (fits cb.bytes p cb.head h short cb.size (omega tests)))
  | inr no_fit ↦ rw (no_fit) (
      rw
        (wrapped_bytes cb.bytes p cb.head h short (length cb.bytes - cb.head) refl
          (ground (arith, no_fit)))
        (wraps cb.bytes p cb.head h short cb.size (length cb.bytes - cb.head) refl
          (ground (arith, no_fit))))
]
