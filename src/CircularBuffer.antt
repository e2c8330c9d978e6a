-- ===== src/CircularBuffer.antt =====
-- proxy/logMonitor.go: the circular byte buffer.
pub mod History
pub mod Ring
pub mod Writes
mod Tests
use llmsnap.Prelude.{
  ℕ, List, replicate, length, take, ◌∷◌, [], if◌then◌else◌, ◌++◌, ◌+◌, ◌-◌, drop, leb, ◌%◌, ◌==◌,
  min,
}

-- `size` bytes are stored, and the next one is written at `head`. `data` never changes its length.
pub record CircularBuffer : Type 0 where
  pub bytes : List ℕ
  pub head : ℕ
  pub size : ℕ

unfoldable pub new_circular_buffer : ℕ → CircularBuffer
new_circular_buffer capacity = record { bytes = replicate capacity 0; head = 0; size = 0 }

-- Go's `copy(dst, src)`: as many entries as fit.
unfoldable pub copy : List ℕ → List ℕ → List ℕ
copy [] src = []
copy (d ∷ dst) [] = d ∷ dst
copy (d ∷ dst) (s ∷ src) = s ∷ copy dst src

-- `copy(dst[i:j], src)`.
unfoldable pub copy_at : ℕ → ℕ → List ℕ → List ℕ → List ℕ
copy_at i j dst src = take i dst ++ copy (drop i (take j dst)) src ++ drop j dst

-- The branch for an input shorter than the capacity.
unfoldable pub write_short : CircularBuffer → List ℕ → CircularBuffer
write_short cb p =
    let cap = length cb.bytes in
    let first_part = cap - cb.head in
    let n = length p in
    if leb n first_part
    then record {
      bytes = copy_at cb.head cap cb.bytes p;
      head = (cb.head + n) % cap;
      size = min (cb.size + n) cap;
    }
    else record {
      bytes =
          copy_at 0 (n - first_part) (copy_at cb.head cap cb.bytes (take first_part p))
            (drop first_part p);
      head = n - first_part;
      size = min (cb.size + n) cap;
    }

unfoldable pub write : CircularBuffer → List ℕ → CircularBuffer
write cb p =
    let cap = length cb.bytes in
    if length p == 0
    then cb
    else if leb cap (length p)
    then record { bytes = copy cb.bytes (drop (length p - cap) p); head = 0; size = cap }
    else write_short cb p

-- `start` in Go is `(head - size + cap) % cap`, which a valid buffer keeps from below zero.
unfoldable pub get_history : CircularBuffer → List ℕ
get_history cb =
    let cap = length cb.bytes in
    let start = (cb.head + cap - cb.size) % cap in
    if cb.size == 0
    then []
    else if leb (start + cb.size) cap
    then take cb.size (drop start cb.bytes)
    else drop start cb.bytes ++ take (cb.size - (cap - start)) cb.bytes
