-- ===== src/MetricsMonitor/Captures.antt =====
-- proxy/metrics_monitor.go: the captures kept.
use llmsnap.Prelude.{
  List, ℕ, ◌++◌, ◌≡◌, arith, drop, none, true, ◌+◌, ◌∷◌, ◌≤◌, [], ap, if◌then◌else◌, ltb, some, ◌<◌,
  refl, suc, tests, Bool-cases, inl, inr, zero, sym, ◌==◌, ◌∙◌, ◌-◌,
}
use llmsnap.MetricsMonitor.{
  ReqRespCapture, MetricsMonitor, size, lookup, insert, delete, forget, evict, add_capture,
  get_capture_by_id,
}

abbrev pub total : List (ℕ × ReqRespCapture) → ℕ
total [] = 0
total ((k, c) ∷ cs) = size c + total cs

abbrev pub keys : List (ℕ × ReqRespCapture) → List ℕ
keys [] = []
keys ((k, c) ∷ cs) = k ∷ keys cs

-- The order and the size say what the map holds, and the size is within its limit.
pub record IsValid (mp : MetricsMonitor) : Type 0 where
  pub ordered : mp.capture_order ≡ keys mp.captures
  pub counted : mp.capture_size ≡ total mp.captures
  pub bounded : mp.capture_size ≤ mp.max_capture_size

-- What is left, of captures in order, when there is room for `n` bytes.
abbrev room : ℕ → ℕ → List (ℕ × ReqRespCapture) → List (ℕ × ReqRespCapture)
room n max [] = []
room n max ((k, c) ∷ cs) =
    let rest = room n max cs in if ltb max (size c + total cs + n) then rest else (k, c) ∷ cs

abbrev holding : List (ℕ × ReqRespCapture) → MetricsMonitor → MetricsMonitor
holding cs mp = record mp { captures = cs; capture_order = keys cs; capture_size = total cs }

same : (k : ℕ) → (k == k) ≡ true
same k = ground arith

lookup_front :
    (k : ℕ) (c : ReqRespCapture) (cs : List (ℕ × ReqRespCapture)) → lookup k ((k, c) ∷ cs) ≡ some c
unfolding lookup
lookup_front k c cs = rw (same k) refl

delete_front :
    (k : ℕ) (c : ReqRespCapture) (cs : List (ℕ × ReqRespCapture)) → delete k ((k, c) ∷ cs) ≡ cs
unfolding delete
delete_front k c cs = rw (same k) refl

forget_front :
    (k : ℕ) (c : ReqRespCapture) (cs : List (ℕ × ReqRespCapture)) (order : List ℕ)
    (mp : MetricsMonitor)
    → (let now = record mp {
      captures = (k, c) ∷ cs;
      capture_order = order;
      capture_size = size c + total cs;
    } in
        forget k (lookup k now.captures) now)
      ≡ record mp { captures = cs; capture_order = order; capture_size = total cs }
unfolding forget
forget_front k c cs order mp = rw (lookup_front k c cs) (
    rw (delete_front k c cs) (
      ap (λ n. record mp { captures = cs; capture_order = order; capture_size = n })
        {x = size c + total cs - size c} {y = total cs} (omega arith)))

evict_lem :
    (n : ℕ) (cs : List (ℕ × ReqRespCapture)) (order : List ℕ) (mp : MetricsMonitor)
    → evict n
        (keys cs)
        (record mp { captures = cs; capture_order = order; capture_size = total cs })
      ≡ holding (room n mp.max_capture_size cs) mp
unfolding evict
evict_lem n [] order mp = refl
evict_lem n ((k, c) ∷ cs) order mp =
    elim (Bool-cases (ltb mp.max_capture_size (size c + total cs + n))) [
      | inl over ↦ rw over (rw (forget_front k c cs order mp) (evict_lem n cs order mp))
      | inr fits ↦ rw fits refl
    ]

evict_all :
    (n : ℕ) (mp : MetricsMonitor)
    → IsValid mp
    → evict n mp.capture_order mp ≡ holding (room n mp.max_capture_size mp.captures) mp
evict_all n mp valid =
    ap (λ o. evict n o mp) valid.ordered
    ∙ (ap (λ s. evict n (keys mp.captures) (record mp { capture_size = s })) valid.counted
        ∙ evict_lem n mp.captures mp.capture_order mp)

lookup-room :
    (id n max : ℕ) (cs : List (ℕ × ReqRespCapture))
    → lookup id cs ≡ none
    → lookup id (room n max cs) ≡ none
unfolding lookup
lookup-room id n max [] h = refl
lookup-room id n max ((k, c) ∷ cs) h = ground (arith, lookup-room id n max cs)

insert_fresh :
    (id : ℕ) (c : ReqRespCapture) (cs : List (ℕ × ReqRespCapture))
    → lookup id cs ≡ none
    → insert id c cs ≡ cs ++ ((id, c) ∷ [])
unfolding lookup insert
insert_fresh id c [] h = refl
insert_fresh id c ((k, d) ∷ cs) h = ground (arith, insert_fresh id c cs)

lookup-insert :
    (id : ℕ) (c : ReqRespCapture) (cs : List (ℕ × ReqRespCapture))
    → lookup id cs ≡ none
    → lookup id (insert id c cs) ≡ some c
unfolding lookup insert
lookup-insert id c [] h = ground arith
lookup-insert id c ((k, d) ∷ cs) h = ground (arith, lookup-insert id c cs)

total-append : (cs ds : List (ℕ × ReqRespCapture)) → total (cs ++ ds) ≡ total cs + total ds
total-append [] ds = omega arith
total-append ((k, c) ∷ cs) ds = omega (arith, total-append cs ds)

keys-append : (cs ds : List (ℕ × ReqRespCapture)) → keys (cs ++ ds) ≡ keys cs ++ keys ds
keys-append [] ds = refl
keys-append ((k, c) ∷ cs) ds = ap (λ l. k ∷ l) (keys-append cs ds)

room_fits : (n max : ℕ) (cs : List (ℕ × ReqRespCapture)) → n ≤ max → total (room n max cs) + n ≤ max
room_fits n max [] h = omega arith
room_fits n max ((k, c) ∷ cs) h = ground (arith, room_fits n max cs h)

-- As many of the oldest as need to go, and no more.
record Oldest (n max : ℕ) (cs : List (ℕ × ReqRespCapture)) : Type 0 where
  gone : ℕ
  left : room n max cs ≡ drop gone cs
  needed : (j : ℕ) → j < gone → max < total (drop j cs) + n

oldest : (n max : ℕ) (cs : List (ℕ × ReqRespCapture)) → Oldest n max cs
oldest n max [] = record { gone = 0; left = refl; needed = λ j h. absurd (omega arith) }
oldest n max ((k, c) ∷ cs) = elim (Bool-cases (ltb max (size c + total cs + n))) [
  | inl over ↦
      let later = oldest n max cs in
      record { gone = suc later.gone; left = rw over later.left; needed = step over later }
  | inr fits ↦ record { gone = 0; left = rw fits refl; needed = λ j h. absurd (omega arith) }
]
  where
    step :
        ltb max (size c + total cs + n) ≡ true
        → (later : Oldest n max cs) (j : ℕ) → j < suc later.gone
        → max < total (drop j ((k, c) ∷ cs)) + n
    step over later zero h = omega tests
    step over later (suc j) h = later.needed j (omega arith)

-- A capture that is stored: it takes the place of the `evicted` oldest captures.
pub record Stored (c : ReqRespCapture) (mp after : MetricsMonitor) : Type 0 where
  pub evicted : ℕ
  pub kept : after.captures ≡ drop evicted mp.captures ++ ((c.id, c) ∷ [])
  pub needed : (j : ℕ) → j < evicted → mp.max_capture_size < total (drop j mp.captures) + size c
  pub found : get_capture_by_id c.id after ≡ some c
  pub valid : IsValid after
  pub unemitted : after.emitted ≡ mp.emitted
  pub uncounted : (after.metrics ≡ mp.metrics) × (after.next_id ≡ mp.next_id)

abbrev stored : ReqRespCapture → MetricsMonitor → MetricsMonitor
stored c mp =
    let left = room (size c) mp.max_capture_size mp.captures in
    holding (left ++ ((c.id, c) ∷ [])) mp

-- The capture itself, once there is room.
abbrev put : ReqRespCapture → MetricsMonitor → MetricsMonitor
put c room = record room {
  captures = insert c.id c room.captures;
  capture_order = room.capture_order ++ (c.id ∷ []);
  capture_size = room.capture_size + size c;
}

put_after :
    (c : ReqRespCapture) (mp : MetricsMonitor)
    → mp.enable_captures ≡ true
    → size c ≤ mp.max_capture_size
    → add_capture c mp ≡ put c (evict (size c) mp.capture_order mp)
unfolding add_capture
put_after c mp on le = ground (arith, on)

add_capture-stored :
    (c : ReqRespCapture) (mp : MetricsMonitor)
    → IsValid mp
    → mp.enable_captures ≡ true
    → size c ≤ mp.max_capture_size
    → lookup c.id mp.captures ≡ none
    → add_capture c mp ≡ stored c mp
unfolding add_capture
add_capture-stored c mp valid on le fresh =
    put_after c mp on le
    ∙ (ap (λ room. put c room) (evict_all (size c) mp valid)
        ∙ (rw
            (insert_fresh c.id c left
              (lookup-room c.id (size c) mp.max_capture_size mp.captures fresh))
            (rw (keys-append left ((c.id, c) ∷ [])) (
              rw (total-append left ((c.id, c) ∷ [])) (
                ap
                  (λ n. record mp {
                    captures = left ++ ((c.id, c) ∷ []);
                    capture_order = keys left ++ (c.id ∷ []);
                    capture_size = n;
                  })
                  {x = total left + size c} {y = total left + (size c + 0)} (omega arith))))))
  where
    left : List (ℕ × ReqRespCapture)
    left = room (size c) mp.max_capture_size mp.captures

-- A valid monitor that captures, with a capture that fits and has a new id: the capture is stored and
-- can be found by its id, after the other captures in order, of which the oldest are evicted, as few
-- as make room for it; the size stays within its limit.
pub add_capture_lem :
    (c : ReqRespCapture) (mp : MetricsMonitor)
    → IsValid mp
    → mp.enable_captures ≡ true
    → size c ≤ mp.max_capture_size
    → get_capture_by_id c.id mp ≡ none
    → Stored c mp (add_capture c mp)
unfolding get_capture_by_id
add_capture_lem c mp valid on le fresh = rw (add_capture-stored c mp valid on le fresh) (record {
  evicted = gone.gone;
  kept = ap (λ cs. cs ++ ((c.id, c) ∷ [])) gone.left;
  needed = gone.needed;
  found = found_there;
  unemitted = refl;
  uncounted = (refl, refl);
  valid = record {
    ordered = refl;
    counted = refl;
    bounded = omega (
      arith,
      total-append left ((c.id, c) ∷ []),
      room_fits (size c) mp.max_capture_size mp.captures le,
    );
  };
})
  where
    left : List (ℕ × ReqRespCapture)
    left = room (size c) mp.max_capture_size mp.captures

    gone : Oldest (size c) mp.max_capture_size mp.captures
    gone = oldest (size c) mp.max_capture_size mp.captures

    still_fresh : lookup c.id left ≡ none
    still_fresh = lookup-room c.id (size c) mp.max_capture_size mp.captures fresh

    found_there : lookup c.id (left ++ ((c.id, c) ∷ [])) ≡ some c
    found_there =
        ap (λ cs. lookup c.id cs) (sym (insert_fresh c.id c left still_fresh))
        ∙ lookup-insert c.id c left still_fresh
