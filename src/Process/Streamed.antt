-- ===== src/Process/Streamed.antt =====
-- proxy/process.go: the messages that a client sees while its model loads.
use mathlib.Core.List.{append-nil, append_assoc}
use llmsnap.Process.Loading.{
  send_all, StatusTick, send_data, StatusWriter, rule_line, status_loop, status_updates,
  new_status_writer, send_line, remark_at, write_header, say_done,
}
use llmsnap.Prelude.{
  zero, List, Text, ℕ, length, ◌∷◌, ◌≡◌, Bool, [], codes, if◌then◌else◌, suc, true, ◌++◌, ap, false,
  leb, refl, take, ◌⊎◌, inr, sym, ◌-◌, ◌==◌, arith, ◌∙◌, inl, ltb,
}

-- A writer that has not panicked.
abbrev writer : List ℕ → List Text → ℕ → StatusWriter
writer codes' sent accepts = record {
  has_written = true;
  status_codes = codes';
  sent = sent;
  accepts = accepts;
  panicked = false;
}

send_all-append :
    (ms ns : List Text) (s : StatusWriter) → send_all (ms ++ ns) s ≡ send_all ns (send_all ms s)
unfolding send_all
send_all-append [] ns s = refl
send_all-append (m ∷ ms) ns s = send_all-append ms ns (send_data m s)

send_all-panicked : (ms : List Text) (s : StatusWriter) → s.panicked ≡ true → send_all ms s ≡ s
unfolding send_all send_data
send_all-panicked [] s h = refl
send_all-panicked (m ∷ ms) s h =
    ap (send_all ms) (
      ap
        (λ b.
          if b
          then s
          else if s.accepts == 0
          then record s { panicked = true }
          else record s { sent = s.sent ++ (m ∷ []); accepts = s.accepts - 1 })
        h)
    ∙ send_all-panicked ms s h

taken :
    (m : Text) (cs : List ℕ) (sent : List Text) (n : ℕ)
    → send_data m (writer cs sent (suc n)) ≡ writer cs (sent ++ (m ∷ [])) n
unfolding send_data
taken m cs sent n =
    ground (arith, ap (writer cs (sent ++ (m ∷ []))) {x = suc n - 1} {y = n} (omega arith))

-- A client that takes some messages gets these first ones.
send_all-sent :
    (ms : List Text) (cs : List ℕ) (sent : List Text) (accepts : ℕ)
    → let s = send_all ms (writer cs sent accepts) in
      (s.sent ≡ sent ++ take accepts ms) × (s.status_codes ≡ cs)
unfolding send_all send_data
send_all-sent [] cs sent zero = (sym (append-nil sent), refl)
send_all-sent [] cs sent (suc n) = (sym (append-nil sent), refl)
send_all-sent (m ∷ ms) cs sent zero =
    let stays : send_all ms (record (writer cs sent zero) { panicked = true })
        ≡ record (writer cs sent zero) { panicked = true } =
      send_all-panicked ms (record (writer cs sent zero) { panicked = true }) refl in
    (ap (λ s. s.sent) stays ∙ sym (append-nil sent), ap (λ s. s.status_codes) stays)
send_all-sent (m ∷ ms) cs sent (suc n) =
    let rest = send_all-sent ms cs (sent ++ (m ∷ [])) n in
    (
      ap (λ s. (send_all ms s).sent) (taken m cs sent n)
          ∙ rest.0
          ∙ append_assoc sent (m ∷ []) (take n ms),
      ap (λ s. (send_all ms s).status_codes) (taken m cs sent n) ∙ rest.1,
    )

-- The number of ticks before the process is ready.
abbrev pub seconds : List StatusTick → ℕ
seconds [] = 0
seconds (tick ∷ ticks) = let rest = seconds ticks in if tick.is_ready then 0 else suc rest

-- Each message is a dot, or one of the remarks on a line of its own.
abbrev pub IsUpdate : List Text → Text → Type 0
IsUpdate remarks m =
    (m ≡ codes ".") ⊎ ((i : ℕ) × (m ≡ (10 ∷ []) ++ remark_at remarks i ++ (10 ∷ [])))

abbrev pub AllUpdates : List Text → List Text → Type 0
AllUpdates remarks [] = Unit {0}
AllUpdates remarks (m ∷ ms) = IsUpdate remarks m × AllUpdates remarks ms

-- The messages at the beginning, and at the end.
abbrev pub opening : Text → List Text
opening id = (rule_line ++ (10 ∷ [])) ∷ ((codes "llmsnap loading model: " ++ id) ++ (10 ∷ [])) ∷ []

abbrev pub closing : Text → List Text
closing duration =
    ((10 ∷ []) ++ codes "Done! (" ++ duration ++ codes "s)" ++ (10 ∷ []))
    ∷ (rule_line ++ (10 ∷ []))
    ∷ (codes " " ++ (10 ∷ []))
    ∷ []

opened : (id : Text) (n : ℕ) → new_status_writer id (suc (suc n)) ≡ writer (200 ∷ []) (opening id) n
unfolding new_status_writer write_header send_line
opened id n =
    ap (send_data ((codes "llmsnap loading model: " ++ id) ++ (10 ∷ [])))
      (taken (rule_line ++ (10 ∷ [])) (200 ∷ []) [] (suc n))
    ∙ taken ((codes "llmsnap loading model: " ++ id) ++ (10 ∷ [])) (200 ∷ [])
        ((rule_line ++ (10 ∷ [])) ∷ []) n

module _ (remarks : List Text) (pause : ℕ → ℕ) where
  updates : ℕ → ℕ → List StatusTick → List Text
  updates i last_remark [] = []
  updates i last_remark (tick ∷ ticks) =
      let with_remark = updates (suc i) tick.at ticks in
      let with_dot = updates i last_remark ticks in
      if tick.is_ready
      then []
      else if leb (pause i) (tick.at - last_remark)
      then ((10 ∷ []) ++ remark_at remarks i ++ (10 ∷ [])) ∷ with_remark
      else codes "." ∷ with_dot

  status_loop-updates :
      (i last_remark : ℕ) (ticks : List StatusTick) (s : StatusWriter)
      → status_loop remarks pause i last_remark ticks s ≡ send_all (updates i last_remark ticks) s
  unfolding status_loop updates send_all send_line
  status_loop-updates i last_remark [] s = refl
  status_loop-updates i last_remark (tick ∷ ticks) s =
      by_tests tick.is_ready (leb (pause i) (tick.at - last_remark))
        (status_loop-updates (suc i) tick.at ticks (send_line ((10 ∷ []) ++ remark_at remarks i) s))
        (status_loop-updates i last_remark ticks (send_data (codes ".") s))
    where
      by_tests :
          (b c : Bool)
          → status_loop remarks pause
              (suc i)
              tick.at
              ticks
              (send_line ((10 ∷ []) ++ remark_at remarks i) s)
            ≡ send_all
                (updates (suc i) tick.at ticks)
                (send_line ((10 ∷ []) ++ remark_at remarks i) s)
          → status_loop remarks pause i last_remark ticks (send_data (codes ".") s)
            ≡ send_all (updates i last_remark ticks) (send_data (codes ".") s)
          → (if b
              then s
              else if c
              then status_loop remarks pause
                  (suc i)
                  tick.at
                  ticks
                  (send_line ((10 ∷ []) ++ remark_at remarks i) s)
              else status_loop remarks pause i last_remark ticks (send_data (codes ".") s))
            ≡ send_all
                (if b
                  then []
                  else if c
                  then ((10 ∷ []) ++ remark_at remarks i ++ (10 ∷ []))
                    ∷ updates (suc i) tick.at ticks
                  else codes "." ∷ updates i last_remark ticks)
                s
      by_tests true c one two = refl
      by_tests false true one two = one
      by_tests false false one two = two

  updates-AllUpdates :
      (i last_remark : ℕ) (ticks : List StatusTick)
      → AllUpdates remarks (updates i last_remark ticks)
        × (length (updates i last_remark ticks) ≡ seconds ticks)
  unfolding updates
  updates-AllUpdates i last_remark [] = (tt, refl)
  updates-AllUpdates i last_remark (tick ∷ ticks) =
      by_tests tick.is_ready (leb (pause i) (tick.at - last_remark))
        (updates-AllUpdates (suc i) tick.at ticks) (updates-AllUpdates i last_remark ticks)
    where
      by_tests :
          (b c : Bool)
          → AllUpdates remarks (updates (suc i) tick.at ticks)
            × (length (updates (suc i) tick.at ticks) ≡ seconds ticks)
          → AllUpdates remarks (updates i last_remark ticks)
            × (length (updates i last_remark ticks) ≡ seconds ticks)
          → let ms : List Text =
              if b
              then []
              else if c
              then ((10 ∷ []) ++ remark_at remarks i ++ (10 ∷ [])) ∷ updates (suc i) tick.at ticks
              else codes "." ∷ updates i last_remark ticks in
            AllUpdates remarks ms × (length ms ≡ (if b then 0 else suc (seconds ticks)))
      by_tests true c one two = (tt, refl)
      by_tests false true one two = ((inr (i, refl), one.0), omega (arith, one.1))
      by_tests false false one two = ((inl refl, two.0), omega (arith, two.1))

  -- What the goroutine of the updates sends, after an opening that was taken.
  updates_sent :
      (duration : Text) (sent : List Text) (n start : ℕ) (ticks : List StatusTick)
      → let s = status_updates remarks pause start duration ticks (writer (200 ∷ []) sent n) in
        (s.sent ≡ sent ++ take n (updates 0 start ticks ++ closing duration))
        × (s.status_codes ≡ (200 ∷ []))
        × (s.panicked ≡ false)
  unfolding status_updates say_done send_line send_all
  updates_sent duration sent n start ticks =
      let whole : send_all (closing duration)
            (status_loop remarks pause 0 start ticks (writer (200 ∷ []) sent n))
          ≡ send_all (updates 0 start ticks ++ closing duration) (writer (200 ∷ []) sent n) =
        ap (send_all (closing duration))
          (status_loop-updates 0 start ticks (writer (200 ∷ []) sent n))
        ∙ sym (
            send_all-append (updates 0 start ticks) (closing duration)
              (writer (200 ∷ []) sent n)) in
      let all = send_all-sent (updates 0 start ticks ++ closing duration) (200 ∷ []) sent n in
      (ap (λ s. s.sent) whole ∙ all.0, ap (λ s. s.status_codes) whole ∙ all.1, refl)

  -- A client that takes `n` messages before it is gone gets the first `n` of these: the rule and the
  -- model's name; one message for each second until the process is ready or the wait is over, a dot or a
  -- remark; and the three lines at the end. The status written is 200, once. A panic is recovered if the
  -- first two messages were taken; one at these, which the request's own goroutine sends, is not.
  pub status_updates_lem :
      (id duration : Text) (n start : ℕ) (ticks : List StatusTick)
      → let s = status_updates remarks pause start duration ticks (new_status_writer id n) in
        (middle : List Text) × AllUpdates remarks middle
        × (length middle ≡ seconds ticks)
        × (s.sent ≡ take n (opening id ++ (middle ++ closing duration)))
        × (s.status_codes ≡ (200 ∷ []))
        × (s.panicked ≡ ltb n 2)
  unfolding status_updates new_status_writer write_header send_line send_data
  status_updates_lem id duration zero start ticks =
      let shown = updates-AllUpdates 0 start ticks in
      (updates 0 start ticks, shown.0, shown.1, refl, refl, refl)
  status_updates_lem id duration (suc zero) start ticks =
      let shown = updates-AllUpdates 0 start ticks in
      (updates 0 start ticks, shown.0, shown.1, refl, refl, refl)
  status_updates_lem id duration (suc (suc n)) start ticks =
      let shown = updates-AllUpdates 0 start ticks in
      let late = updates_sent duration (opening id) n start ticks in
      let begun = ap (status_updates remarks pause start duration ticks) (opened id n) in
      (
        updates 0 start ticks,
        shown.0,
        shown.1,
        ap (λ s. s.sent) begun ∙ late.0,
        ap (λ s. s.status_codes) begun ∙ late.1,
        ap (λ s. s.panicked) begun ∙ late.2 ∙ sym (ground arith),
      )
