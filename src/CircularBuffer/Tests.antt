-- ===== src/CircularBuffer/Tests.antt =====
-- proxy/logMonitor.go: the circular buffer on concrete inputs.
use llmsnap.Prelude.{inl, ◌∷◌, ◌≡◌, [], arith, refl}
use llmsnap.CircularBuffer.{
  copy_at, copy, write_short, CircularBuffer, write, get_history, new_circular_buffer, write_short,
}
use llmsnap.CircularBuffer.History.{IsValid}
use llmsnap.CircularBuffer.Writes.{Takes, write_lem, history_of_writes, write_all}

-- Four bytes of room, three bytes stored, the oldest at index 2.
abbrev wrapped : CircularBuffer
wrapped = record { bytes = 7 ∷ 9 ∷ 5 ∷ 6 ∷ []; head = 1; size = 3 }

wrapped-IsValid : IsValid wrapped
wrapped-IsValid = record { head_in = inl (omega arith); size_in = omega arith }

wrapped_history : get_history wrapped ≡ 5 ∷ 6 ∷ 7 ∷ []
unfolding get_history
wrapped_history = refl

write_lem_example : Takes wrapped (1 ∷ 2 ∷ []) (write wrapped (1 ∷ 2 ∷ []))
write_lem_example = write_lem wrapped (1 ∷ 2 ∷ []) wrapped-IsValid

after_write : get_history (write wrapped (1 ∷ 2 ∷ [])) ≡ 6 ∷ 7 ∷ 1 ∷ 2 ∷ []
unfolding get_history write write_short copy_at copy
after_write = refl

history_of_writes_example :
    get_history (write_all (new_circular_buffer 3) ((1 ∷ 2 ∷ []) ∷ [] ∷ (3 ∷ 4 ∷ []) ∷ []))
    ≡ 2 ∷ 3 ∷ 4 ∷ []
history_of_writes_example = history_of_writes 3 ((1 ∷ 2 ∷ []) ∷ [] ∷ (3 ∷ 4 ∷ []) ∷ [])
