-- ===== src/Server/DebugLog/Laws.antt =====
-- The buffers as bounded views of everything that was recorded.
use mathlib.Core.List.{reverse, reverse-cons, reverse-append, append_assoc, append-nil}
use tcpadapter.Common.{
  ℕ, zero, suc, ◌-◌, ◌≤◌, ◌<◌, ◌≡◌, refl, sym, ap, ◌∙◌, true, List, [], ◌∷◌, ◌++◌, some, length,
  length-append, take, drop, get_elem?, ltb, ◌==◌, if◌then◌else◌, arith, Bool-cases, inl, inr,
}
use tcpadapter.Server.DebugLog.{
  DebugEvent, record_item, newest, items_snapshot, record_debug_event, debug_events_snapshot,
  max_debug_events,
}

module _ {ℓ} {A : Type ℓ} where
  length-reverse : (xs : List A) → length (reverse xs) ≡ length xs
  length-reverse [] = refl
  length-reverse (x ∷ xs) =
      rw (reverse-cons x xs) (omega (arith, length-append (reverse xs) (x ∷ []), length-reverse xs))

  take-short : (n : ℕ) (xs ys : List A) → n ≤ length xs → take n (xs ++ ys) ≡ take n xs
  take-short zero xs ys h = refl
  take-short (suc n) [] ys h = absurd (omega (arith, h))
  take-short (suc n) (x ∷ xs) ys h = ap (◌∷◌ x) (take-short n xs ys (omega arith))

  take-long : (n : ℕ) (xs : List A) → length xs ≤ n → take n xs ≡ xs
  take-long zero [] h = refl
  take-long zero (x ∷ xs) h = absurd (omega (arith, h))
  take-long (suc n) [] h = refl
  take-long (suc n) (x ∷ xs) h = ap (◌∷◌ x) (take-long n xs (omega arith))

  drop-append : (n : ℕ) (xs ys : List A) → n ≤ length xs → drop n (xs ++ ys) ≡ drop n xs ++ ys
  drop-append zero xs ys h = refl
  drop-append (suc n) [] ys h = absurd (omega (arith, h))
  drop-append (suc n) (x ∷ xs) ys h = drop-append n xs ys (omega arith)

  reverse-drop :
      (n : ℕ) (xs : List A)
      → n ≤ length xs
      → reverse (drop n xs) ≡ take (length xs - n) (reverse xs)
  reverse-drop zero xs h =
      sym (take-long (length xs - 0) (reverse xs) (omega (arith, length-reverse xs)))
  reverse-drop (suc n) [] h = absurd (omega (arith, h))
  reverse-drop (suc n) (x ∷ xs) h =
      let same : suc (length xs) - suc n ≡ length xs - n = omega arith in
      rw
        (
          reverse-cons x xs,
          same,
          take-short (length xs - n) (reverse xs) (x ∷ []) (omega (arith, length-reverse xs)),
        )
        (reverse-drop n xs (omega arith))

  take-take : (k : ℕ) (xs : List A) → take k (take (suc k) xs) ≡ take k xs
  take-take zero xs = refl
  take-take (suc k) [] = refl
  take-take (suc k) (x ∷ xs) = ap (◌∷◌ x) (take-take k xs)

  take-suc :
      (i : ℕ) (xs : List A)
      → i < length xs
      → (x : A) × (get_elem? xs i ≡ some x) × (take (suc i) xs ≡ take i xs ++ x ∷ [])
  take-suc i [] h = absurd (omega (arith, h))
  take-suc zero (x ∷ xs) h = (x, refl, refl)
  take-suc (suc i) (x ∷ xs) h =
      let (y, there, split) = take-suc i xs (omega arith) in (y, there, ap (◌∷◌ x) split)

  -- The abstract log: everything that was recorded, last item first. The buffer holds its first `most`.
  abbrev pub Holds : ℕ → List A → List A → Type ℓ
  Holds most items log = reverse items ≡ take most log

  record_item-Holds :
      (most : ℕ) (item : A) (items log : List A)
      → 0 < most
      → Holds most items log
      → Holds most (record_item most item items) (item ∷ log)
  unfolding record_item
  record_item-Holds zero item items log h holds = absurd (omega (arith, h))
  record_item-Holds (suc k) item items log h holds =
      let longer = items ++ item ∷ [] in
      let long = length-append items (item ∷ []) in
      let shorter : take k (reverse items) ≡ take k log = ap (take k) holds ∙ take-take k log in
      let flipped : reverse longer ≡ item ∷ reverse items = reverse-append items (item ∷ []) in
      elim (Bool-cases (ltb (suc k) (length longer))) [
        | inl over ↦
            let kept : length longer - (length longer - suc k) ≡ suc k = ground (arith, over) in
            rw (over, reverse-drop (length longer - suc k) longer (omega arith), kept, flipped)
              (ap (◌∷◌ item) shorter)
        | inr under ↦
            let all : take k (reverse items) ≡ reverse items =
              take-long k (reverse items) (ground (arith, under, long, length-reverse items)) in
            rw (under, flipped) (ap (◌∷◌ item) (sym all ∙ shorter))
      ]

  newest-take :
      (items : List A) (i room : ℕ)
      → i ≤ length items
      → newest items i room ≡ take room (reverse (take i items))
  unfolding newest
  newest-take items zero room h = sym (take-long room [] (omega arith))
  newest-take items (suc i) zero h = refl
  newest-take items (suc i) (suc room) h =
      let (item, there, split) = take-suc i items (omega arith) in
      let flipped : reverse (take i items ++ item ∷ []) ≡ item ∷ reverse (take i items) =
        reverse-append (take i items) (item ∷ []) in
      rw (newest, there, split, flipped) (ap (◌∷◌ item) (newest-take items i room (omega arith)))

  items_snapshot-take :
      (limit : ℕ) (items : List A)
      → items_snapshot limit items
        ≡ (if limit == 0 then reverse items else take limit (reverse items))
  unfolding items_snapshot
  items_snapshot-take limit items =
      let whole : take (length items) items ≡ items =
        take-long (length items) items (omega arith) in
      let shown = λ (room : ℕ). rw whole at (newest-take items (length items) room (omega arith)) in
      let full = take-long (length items) (reverse items) (omega (arith, length-reverse items)) in
      elim (Bool-cases (limit == 0)) [
        | inl z ↦ rw z (shown (length items) ∙ full)
        | inr z ↦ elim (Bool-cases (ltb (length items) limit)) [
          | inl l ↦
              rw (z, l)
                (shown (length items)
                  ∙ full
                  ∙ sym (take-long limit (reverse items) (ground (arith, length-reverse items))))
          | inr l ↦ rw (z, l) (shown limit)
        ]
      ]

-- The events one after another.
abbrev pub record_all : List DebugEvent → List DebugEvent → List DebugEvent
record_all [] events = events
record_all (e ∷ es) events = record_all es (record_debug_event true e events)

record_all-Holds :
    (es events log : List DebugEvent)
    → Holds max_debug_events events log
    → Holds max_debug_events (record_all es events) (reverse es ++ log)
unfolding record_debug_event
record_all-Holds [] events log h = h
record_all-Holds (e ∷ es) events log h =
    let order : reverse (e ∷ es) ++ log ≡ reverse es ++ e ∷ log =
      ap (λ l. l ++ log) (reverse-cons e es) ∙ append_assoc (reverse es) (e ∷ []) log in
    rw order (
      record_all-Holds es (record_debug_event true e events) (e ∷ log)
        (record_item-Holds 256 e events log (omega arith) h))

-- With debug logs on, the buffer of debug events stands for the list of all events that were ever recorded: a
-- snapshot shows the last of them first, as many as asked for (all, for a limit of 0), out of the last 256.
pub debug_events-Holds :
    (es : List DebugEvent) (limit : ℕ)
    → debug_events_snapshot limit (record_all es [])
      ≡ (if limit == 0 then take 256 (reverse es) else take limit (take 256 (reverse es)))
unfolding debug_events_snapshot
debug_events-Holds es limit =
    let holds : reverse (record_all es []) ≡ take 256 (reverse es) =
      record_all-Holds es [] [] refl ∙ ap (take 256) (append-nil (reverse es)) in
    rw (items_snapshot-take limit (record_all es []), holds)
