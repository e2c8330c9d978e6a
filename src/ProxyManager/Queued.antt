-- ===== src/ProxyManager/Queued.antt =====
-- proxy/proxymanager_loghandlers.go and proxy/proxymanager_api.go: which messages of a stream reach the
-- client.
use mathlib.Core.Path.{subst}
use mathlib.Core.List.{append-nil, append_assoc}
use llmsnap.ProxyManager.Streams.{
  run_stream, StreamStep, stream_step, Stream, offer, offers, take_from, takes, ends,
}
use llmsnap.Prelude.{
  ap, ◌∙◌, List, ℕ, [], ◌∷◌, length, ◌≡◌, Bool-cases, false, suc, true, ◌≤◌, if◌then◌else◌, inl,
  ltb, refl, ◌++◌, inr, sym, ◌-◌, length-append, arith,
}

-- The messages that find room, where `n` wait before the steps.
abbrev pub accepted : {A : Type 0} → ℕ → ℕ → List (StreamStep A) → List A
accepted room n [] = []
accepted room n (offers message ∷ steps) =
    let with = accepted room (suc n) steps in
    let without = accepted room n steps in if ltb n room then message ∷ with else without
accepted room n (takes ∷ steps) = accepted room (n - 1) steps
accepted room n (ends ∷ steps) = []

-- The messages offered until the stream ends.
abbrev pub offered : {A : Type 0} → List (StreamStep A) → List A
offered [] = []
offered (offers message ∷ steps) = message ∷ offered steps
offered (takes ∷ steps) = offered steps
offered (ends ∷ steps) = []

-- The second list is the first one with some messages left out.
pub data IsThinned {A : Type 0} : List A → List A → Type 0 where
  thinned_nil : IsThinned [] []
  keeps_one : (a : A) (as' bs : List A) → IsThinned as' bs → IsThinned (a ∷ as') (a ∷ bs)
  leaves_out : (a : A) (as' bs : List A) → IsThinned as' bs → IsThinned (a ∷ as') bs

accepted-IsThinned :
    {A : Type 0} (room n : ℕ) (steps : List (StreamStep A))
    → IsThinned (offered steps) (accepted room n steps)
accepted-IsThinned room n [] = thinned_nil
accepted-IsThinned room n (offers message ∷ steps) = elim (Bool-cases (ltb n room)) [
  | inl e ↦ rw e (
      keeps_one message (offered steps) (accepted room (suc n) steps)
        (accepted-IsThinned room (suc n) steps))
  | inr ne ↦
      rw ne (
        leaves_out message (offered steps) (accepted room n steps)
          (accepted-IsThinned room n steps))
]
accepted-IsThinned room n (takes ∷ steps) = accepted-IsThinned room (n - 1) steps
accepted-IsThinned room n (ends ∷ steps) = thinned_nil

run_stream-ended :
    {A : Type 0} (room : ℕ) (steps : List (StreamStep A)) (s : Stream A)
    → s.ended ≡ true
    → run_stream room steps s ≡ s
unfolding run_stream
run_stream-ended room [] s e = refl
run_stream-ended room (step ∷ steps) s e = rw e refl

run_stream-accepted :
    {A : Type 0} (room : ℕ) (steps : List (StreamStep A)) (sent queue : List A)
    → let s = run_stream room steps (record { sent = sent; queue = queue; ended = false }) in
      (s.sent ++ s.queue) ≡ ((sent ++ queue) ++ accepted room (length queue) steps)
unfolding run_stream stream_step offer take_from
run_stream-accepted room [] sent queue = sym (append-nil (sent ++ queue))
run_stream-accepted room (offers message ∷ steps) sent queue =
    elim (Bool-cases (ltb (length queue) room)) [
      | inl e ↦ rw e (
          run_stream-accepted room steps sent (queue ++ (message ∷ []))
          ∙ ap (λ n. (sent ++ (queue ++ (message ∷ []))) ++ accepted room n steps)
              (length-append queue (message ∷ []) ∙ omega arith)
          ∙ ap (λ x. x ++ accepted room (suc (length queue)) steps)
              (sym (append_assoc sent queue (message ∷ [])))
          ∙ append_assoc (sent ++ queue) (message ∷ []) (accepted room (suc (length queue)) steps))
      | inr ne ↦ rw ne (run_stream-accepted room steps sent queue)
    ]
run_stream-accepted room (takes ∷ steps) sent [] = run_stream-accepted room steps sent []
run_stream-accepted room (takes ∷ steps) sent (message ∷ queue) =
    run_stream-accepted room steps (sent ++ (message ∷ [])) queue
    ∙ ap (λ x. x ++ accepted room (length queue) steps) (append_assoc sent (message ∷ []) queue)
    ∙ ap (λ n. (sent ++ (message ∷ queue)) ++ accepted room n steps) (omega arith)
run_stream-accepted room (ends ∷ steps) sent queue =
    ap (λ s. s.sent ++ s.queue)
      (run_stream-ended room steps (record { sent = sent; queue = queue; ended = true }) refl)
    ∙ sym (append-nil (sent ++ queue))

abbrev fresh_stream : {A : Type 0} → List A → List A → Stream A
fresh_stream sent queue = record { sent = sent; queue = queue; ended = false }

run_stream-room :
    {A : Type 0} (room : ℕ) (steps : List (StreamStep A)) (sent queue : List A)
    → length queue ≤ room
    → length (run_stream room steps (fresh_stream sent queue)).queue ≤ room
unfolding run_stream stream_step offer take_from
run_stream-room room [] sent queue h = h
run_stream-room room (offers message ∷ steps) sent queue h =
    elim (Bool-cases (ltb (length queue) room)) [
      | inl e ↦ rw e (
          run_stream-room room steps sent (queue ++ (message ∷ []))
            (ground (arith, e, length-append queue (message ∷ []))))
      | inr ne ↦ rw ne (run_stream-room room steps sent queue h)
    ]
run_stream-room room (takes ∷ steps) sent [] h = run_stream-room room steps sent [] h
run_stream-room room (takes ∷ steps) sent (message ∷ queue) h =
    run_stream-room room steps (sent ++ (message ∷ [])) queue (omega arith)
run_stream-room room (ends ∷ steps) sent queue h =
    subst (λ s. length s.queue ≤ room)
      (sym (run_stream-ended room steps (record { sent = sent; queue = queue; ended = true }) refl))
      h

-- A stream over a channel with some room: what was written and then what waits in the channel are the
-- messages that found room when they were offered, less than `room` others waiting then, after what was
-- written before. No more than `room` wait. So some of the messages offered until the end may be left
-- out, and the others come once each, in their order.
pub run_stream_lem :
    {A : Type 0} (room : ℕ) (steps : List (StreamStep A)) (sent : List A)
    → let s = run_stream room steps (record { sent = sent; queue = []; ended = false }) in
      ((s.sent ++ s.queue) ≡ sent ++ accepted room 0 steps)
      × (length s.queue ≤ room)
      × IsThinned (offered steps) (accepted room 0 steps)
run_stream_lem room steps sent = (
  run_stream-accepted room steps sent [] ∙ ap (λ x. x ++ accepted room 0 steps) (append-nil sent),
  run_stream-room room steps sent [] (omega arith),
  accepted-IsThinned room 0 steps,
)
