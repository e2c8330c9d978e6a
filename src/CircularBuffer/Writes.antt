-- ===== src/CircularBuffer/Writes.antt =====
-- proxy/logMonitor.go: the buffer after a write and after a run of writes.
use llmsnap.Prelude.{
  List, length, ℕ, ◌+◌, ◌≡◌, ◌≤◌, arith, drop, ◌<◌, length-drop, ◌++◌, ◌-◌, drop-append_le, min, ap,
  last, Bool-cases, drop-drop, leb, inl, inr, length-append, refl, sym, ◌∙◌, [], drop_all, ◌∷◌,
  leb→le, drop-append_ge, length-replicate, suc, zero, ◌==◌, false, last-last, last_all,
}
use llmsnap.CircularBuffer.{
  CircularBuffer, copy, write_short, write, get_history, new_circular_buffer,
}
use llmsnap.CircularBuffer.Ring.{ring, write_short_lem, copy_lem, length-ring, length-copy}
use llmsnap.CircularBuffer.History.{newest, get_history_lem, IsValid}
use mathlib.Core.List.{append-nil, append_assoc}

drop-drop_front :
    (k m : ℕ) (xs ys : List ℕ)
    → k + m ≤ length xs
    → drop m (drop k xs ++ ys) ≡ drop (k + m) xs ++ ys
drop-drop_front k m xs ys le =
    rw (drop-append_le m (drop k xs) ys (omega (arith, length-drop k xs)))
      (ap (λ l. l ++ ys) (drop-drop m k xs))

length-newest : (cb : CircularBuffer) → IsValid cb → length (newest cb) ≡ cb.size
length-newest cb valid =
    omega (arith, length-drop (length cb.bytes - cb.size) (ring cb), length-ring cb, valid.size_in)

-- The last entries of what was stored and what comes.
module _ (r p : List ℕ) (size : ℕ) (le : size ≤ length r) (short : length p < length r) where
  last_of_both :
      drop (length r - min (size + length p) (length r)) (drop (length p) r ++ p)
      ≡ last (length r) (drop (length r - size) r ++ p)
  last_of_both =
      drop-drop_front (length p) (length r - min (size + length p) (length r)) r p (omega arith)
      ∙ (ap (λ n. drop n r ++ p) {x = length p + (length r - min (size + length p) (length r))}
            {y = length r - size + (length (drop (length r - size) r ++ p) - length r)}
            (omega (arith, length-both))
          ∙ sym (
              drop-drop_front (length r - size) (length (drop (length r - size) r ++ p) - length r)
                r p (omega (arith, length-both))))
    where
      length-both : length (drop (length r - size) r ++ p) ≡ size + length p
      length-both =
          omega (arith, length-append (drop (length r - size) r) p, length-drop (length r - size) r)

size-write_short :
    (cb : CircularBuffer) (p : List ℕ)
    → (write_short cb p).size ≡ min (cb.size + length p) (length cb.bytes)
unfolding write_short
size-write_short cb p = elim (Bool-cases (leb (length p) (length cb.bytes - cb.head))) [
  | inl fit ↦ rw (fit) refl
  | inr no_fit ↦ rw (no_fit) refl
]

write_short-IsValid :
    (cb : CircularBuffer) (p : List ℕ)
    → IsValid cb
    → cb.head < length cb.bytes
    → length p < length cb.bytes
    → IsValid (write_short cb p)
write_short-IsValid cb p valid h short =
    let done = write_short_lem cb p h short in
    record {
      head_in = inl (omega (arith, done.kept, done.within));
      size_in = omega (arith, done.kept, size-write_short cb p);
    }

newest-write_short :
    (cb : CircularBuffer) (p : List ℕ)
    → IsValid cb
    → cb.head < length cb.bytes
    → length p < length cb.bytes
    → newest (write_short cb p) ≡ last (length cb.bytes) (newest cb ++ p)
newest-write_short cb p valid h short =
    let done = write_short_lem cb p h short in
    rw (done.kept) (
      rw (done.moved) (
        rw (size-write_short cb p) (
          rw (sym (length-ring cb)) (
            last_of_both (ring cb) p cb.size (omega (arith, valid.size_in, length-ring cb))
              (omega (arith, length-ring cb))))))

-- A buffer that keeps its capacity and holds the last bytes of the old history and `p`.
pub record Takes (cb : CircularBuffer) (p : List ℕ) (after : CircularBuffer) : Type 0 where
  pub valid : IsValid after
  pub capacity : length after.bytes ≡ length cb.bytes
  pub history : get_history after ≡ last (length cb.bytes) (get_history cb ++ p)

length-history : (cb : CircularBuffer) → IsValid cb → length (get_history cb) ≡ cb.size
length-history cb valid = rw (get_history_lem cb valid) (length-newest cb valid)

Takes-nothing : (cb : CircularBuffer) → IsValid cb → Takes cb [] cb
Takes-nothing cb valid = record {
  valid = valid;
  capacity = refl;
  history = rw (append-nil (get_history cb)) (
      sym (
        last_all (length cb.bytes) (get_history cb)
          (omega (arith, length-history cb valid, valid.size_in))));
}

module _ (cb : CircularBuffer) (p : List ℕ) (valid : IsValid cb)
    (long : length cb.bytes ≤ length p) where
  abbrev refilled : CircularBuffer
  refilled = record {
    bytes = copy cb.bytes (drop (length p - length cb.bytes) p);
    head = 0;
    size = length cb.bytes;
  }

  refilled_bytes :
      copy cb.bytes (drop (length p - length cb.bytes) p) ≡ drop (length p - length cb.bytes) p
  refilled_bytes =
      copy_lem cb.bytes (drop (length p - length cb.bytes) p) (omega (arith, length_rest))
      ∙ (rw
          (drop_all (length (drop (length p - length cb.bytes) p)) cb.bytes
            (omega (arith, length_rest)))
          (append-nil (drop (length p - length cb.bytes) p)))
    where
      length_rest : length (drop (length p - length cb.bytes) p) ≡ length cb.bytes
      length_rest = omega (arith, length-drop (length p - length cb.bytes) p)

  length-refilled : length refilled.bytes ≡ length cb.bytes
  length-refilled = length-copy cb.bytes (drop (length p - length cb.bytes) p)

  refilled-IsValid : IsValid refilled
  refilled-IsValid = record {
    head_in = ground (arith, length-refilled);
    size_in = omega (arith, length-refilled);
  }

  newest-refilled : newest refilled ≡ drop (length p - length cb.bytes) p
  newest-refilled = rw (nothing_dropped) (append-nil refilled.bytes ∙ refilled_bytes)
    where
      nothing_dropped : length refilled.bytes - length cb.bytes ≡ 0
      nothing_dropped = omega (arith, length-refilled)

  last-refilled : last (length cb.bytes) (get_history cb ++ p) ≡ drop (length p - length cb.bytes) p
  last-refilled =
      drop-append_ge (length (get_history cb ++ p) - length cb.bytes) (get_history cb) p
        (omega (arith, length-both))
      ∙ ap (λ n. drop n p)
          {x = length (get_history cb ++ p) - length cb.bytes - length (get_history cb)}
          {y = length p - length cb.bytes} (omega (arith, length-both))
    where
      length-both : length (get_history cb ++ p) ≡ length (get_history cb) + length p
      length-both = length-append (get_history cb) p

  refilled-Takes : Takes cb p refilled
  refilled-Takes = record {
    valid = refilled-IsValid;
    capacity = length-refilled;
    history = get_history_lem refilled refilled-IsValid ∙ (newest-refilled ∙ sym last-refilled);
  }

Takes-short :
    (cb : CircularBuffer) (p : List ℕ)
    → IsValid cb
    → length p < length cb.bytes
    → Takes cb p (write_short cb p)
Takes-short cb p valid short = elim valid.head_in [
  | inl h ↦ record {
    valid = write_short-IsValid cb p valid h short;
    capacity = (write_short_lem cb p h short).kept;
    history =
        get_history_lem (write_short cb p) (write_short-IsValid cb p valid h short)
        ∙ (newest-write_short cb p valid h short
            ∙ ap (λ l. last (length cb.bytes) (l ++ p)) (sym (get_history_lem cb valid)));
  }
  | inr no_room ↦ absurd (omega (arith, no_room.1))
]

-- `Write` on a valid buffer leaves a valid buffer of the same capacity, and `GetHistory` then
-- returns the last `cap` bytes of what it returned before followed by the bytes written.
pub write_lem : (cb : CircularBuffer) (p : List ℕ) → IsValid cb → Takes cb p (write cb p)
unfolding write
write_lem cb [] valid = Takes-nothing cb valid
write_lem cb (b ∷ p) valid = elim (Bool-cases (leb (length cb.bytes) (length (b ∷ p)))) [
  | inl long ↦
      rw (written (length p)) (
        rw (long)
          (refilled-Takes cb (b ∷ p) valid (leb→le (length cb.bytes) (length (b ∷ p)) long)))
  | inr short ↦
      rw (written (length p)) (rw (short) (Takes-short cb (b ∷ p) valid (ground (arith, short))))
]
  where
    written : (n : ℕ) → (suc n == 0) ≡ false
    written n = ground arith

abbrev pub write_all : CircularBuffer → List (List ℕ) → CircularBuffer
write_all cb [] = cb
write_all cb (p ∷ ps) = write_all (write cb p) ps

abbrev pub flat : List (List ℕ) → List ℕ
flat [] = []
flat (p ∷ ps) = p ++ flat ps

pub new-IsValid : (cap : ℕ) → IsValid (new_circular_buffer cap)
unfolding new_circular_buffer
new-IsValid zero = record { head_in = inr (refl, refl); size_in = omega arith }
new-IsValid (suc n) = record {
  head_in = inl (omega (arith, length-replicate {A = ℕ} (suc n) 0));
  size_in = omega arith;
}

write_all_lem :
    (cb : CircularBuffer) (ps : List (List ℕ))
    → IsValid cb
    → get_history (write_all cb ps) ≡ last (length cb.bytes) (get_history cb ++ flat ps)
write_all_lem cb [] valid = (Takes-nothing cb valid).history
write_all_lem cb (p ∷ ps) valid =
    let done = write_lem cb p valid in
    write_all_lem (write cb p) ps done.valid
    ∙ (rw (done.capacity) (
        rw (done.history) (
          last-last (length cb.bytes) (get_history cb ++ p) (flat ps)
          ∙ ap (λ l. last (length cb.bytes) l) (append_assoc (get_history cb) p (flat ps)))))

-- Any run of writes into a new buffer leaves, for `GetHistory`, the last `capacity`
-- bytes of all that was written, in order.
pub history_of_writes :
    (capacity : ℕ) (ps : List (List ℕ))
    → get_history (write_all (new_circular_buffer capacity) ps) ≡ last capacity (flat ps)
unfolding new_circular_buffer get_history
history_of_writes capacity ps =
    rw (write_all_lem (new_circular_buffer capacity) ps (new-IsValid capacity))
      (rw (length-replicate {A = ℕ} capacity 0) refl)
