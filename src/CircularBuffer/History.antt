-- ===== src/CircularBuffer/History.antt =====
-- proxy/logMonitor.go: what `GetHistory` returns after `Write`.
use llmsnap.Prelude.{
  List, ℕ, ◌<◌, drop, length, take, ◌-◌, ◌≤◌, zero, ◌+◌, ◌≡◌, suc, ◌∷◌, refl, [], ap, ◌%◌, ◌++◌,
  arith, drop-append_ge, take_all, length-drop, ◌∙◌, Bool-cases, sym, ◌==◌, inl, inr, ==_iff,
  drop-append_le, leb, ◌⊎◌, drop-drop, leb→le, true, drop_all,
}
use llmsnap.CircularBuffer.{CircularBuffer, get_history}
use llmsnap.CircularBuffer.Ring.{ring, length-ring}
use native.Mathlib.Nat.{mod-eq_of_lt, add-mod_right}
use mathlib.Core.List.{append-nil}

take_nothing : (n : ℕ) → take {A = ℕ} n [] ≡ []
take_nothing n = take_all n [] (omega arith)

take_none : (n : ℕ) (xs : List ℕ) → n ≡ 0 → take n xs ≡ []
take_none zero xs e = refl
take_none (suc n) xs e = absurd (omega arith)

drop-take : (k n : ℕ) (xs : List ℕ) → drop k (take n xs) ≡ take (n - k) (drop k xs)
drop-take zero n xs = ap (λ j. take j xs) {x = n} {y = n - 0} (omega arith)
drop-take (suc k) zero xs = sym (take_none (zero - suc k) (drop (suc k) xs) (omega arith))
drop-take (suc k) (suc n) [] = sym (take_nothing (suc n - suc k))
drop-take (suc k) (suc n) (x ∷ xs) =
    drop-take k n xs ∙ ap (λ j. take j (drop k xs)) {x = n - k} {y = suc n - suc k} (omega arith)

-- The `size` bytes behind the head.
abbrev pub newest : CircularBuffer → List ℕ
newest cb = drop (length cb.bytes - cb.size) (ring cb)

module _ (d : List ℕ) (h size : ℕ) (in_range : h < length d) where
  start_ahead : size ≤ h → (h + length d - size) % length d ≡ h - size
  start_ahead le =
      ap (λ x. x % length d) (omega arith)
      ∙ (add-mod_right (h - size) (length d) ∙ mod-eq_of_lt (omega arith))

  ring_ahead :
      size ≤ h → drop (length d - size) (drop h d ++ take h d) ≡ take size (drop (h - size) d)
  ring_ahead le =
      rw (drop-append_ge (length d - size) (drop h d) (take h d) (omega (arith, length-drop h d))) (
        rw (length-drop h d)
          (rw (drop-take (length d - size - (length d - h)) h d) (rw (past) (rw (left) refl))))
    where
      past : length d - size - (length d - h) ≡ h - size
      past = omega arith

      left : h - (h - size) ≡ size
      left = omega arith

  one_copy :
      (start : ℕ)
      → (h + length d - size) % length d ≡ start
      → start + size ≤ length d
      → get_history (record { bytes = d; head = h; size = size }) ≡ take size (drop start d)
  unfolding get_history
  one_copy start e le = elim (Bool-cases (size == 0)) [
    | inl nothing ↦ rw (nothing) (sym (take_none size (drop start d) ((==_iff size 0).0 nothing)))
    | inr some_bytes ↦ rw (some_bytes) (rw (e) (ground arith))
  ]

  two_copies :
      (start : ℕ)
      → (h + length d - size) % length d ≡ start
      → length d < start + size
      → zero < size
      → get_history (record { bytes = d; head = h; size = size })
        ≡ drop start d ++ take (size - (length d - start)) d
  unfolding get_history
  two_copies start e lt busy = rw (e) (ground arith)

  history_ahead :
      size ≤ h
      → get_history (record { bytes = d; head = h; size = size })
        ≡ newest (record { bytes = d; head = h; size = size })
  history_ahead le = one_copy (h - size) (start_ahead le) (omega arith) ∙ sym (ring_ahead le)

  start_behind : h < size → size ≤ length d → (h + length d - size) % length d ≡ h + length d - size
  start_behind lt le = mod-eq_of_lt (omega arith)

  ring_behind :
      h < size
      → size ≤ length d
      → drop (length d - size) (drop h d ++ take h d) ≡ drop (h + length d - size) d ++ take h d
  ring_behind lt le =
      rw (drop-append_le (length d - size) (drop h d) (take h d) (omega (arith, length-drop h d)))
        (rw (drop-drop (length d - size) h d) (rw (same) refl))
    where
      same : h + (length d - size) ≡ h + length d - size
      same = omega arith

  wrapped : h < size → size ≤ length d → size - (length d - (h + length d - size)) ≡ h
  wrapped lt le = omega arith

  history_behind :
      h < size
      → size ≤ length d
      → get_history (record { bytes = d; head = h; size = size })
        ≡ newest (record { bytes = d; head = h; size = size })
  history_behind lt le = elim (Bool-cases (h == 0)) [
    | inl front ↦
        one_copy (h + length d - size) (start_behind lt le) (ground (arith, front))
        ∙ (take_all size (drop (h + length d - size) d)
              (ground (arith, front, length-drop (h + length d - size) d))
            ∙ sym (
                ring_behind lt le
                ∙ (rw (take_none h d ((==_iff h 0).0 front))
                    (append-nil (drop (h + length d - size) d)))))
    | inr inside ↦
        two_copies (h + length d - size) (start_behind lt le) (ground (arith, inside)) (omega arith)
        ∙ (rw (wrapped lt le) (sym (ring_behind lt le)))
  ]

pub record IsValid (cb : CircularBuffer) : Type 0 where
  pub head_in : (cb.head < length cb.bytes) ⊎ ((cb.head ≡ 0) × (length cb.bytes ≡ 0))
  pub size_in : cb.size ≤ length cb.bytes

pub get_history_lem : (cb : CircularBuffer) → IsValid cb → get_history cb ≡ newest cb
unfolding get_history
get_history_lem cb valid = elim valid.head_in [
  | inl lt ↦ elim (Bool-cases (leb cb.size cb.head)) [
    | inl le ↦ history_ahead cb.bytes cb.head cb.size lt (leb→le cb.size cb.head le)
    | inr gt ↦ history_behind cb.bytes cb.head cb.size lt (ground (arith, gt)) valid.size_in
  ]
  | inr no_room ↦ rw (none_stored no_room) (
      sym (
        drop_all (length cb.bytes - cb.size) (ring cb)
          (omega (arith, length-ring cb, no_room.0, no_room.1))))
]
  where
    none_stored : (cb.head ≡ 0) × (length cb.bytes ≡ 0) → (cb.size == 0) ≡ true
    none_stored e = (==_iff cb.size 0).1 (omega (arith, e.0, e.1, valid.size_in))
