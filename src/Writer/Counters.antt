-- ===== src/Writer/Counters.antt =====
-- The counters of the events, and the rows that they number (webapp/backend/sources/writer.py).
use jobhunt.Prelude.{
  ℕ, ◌+◌, ◌≡◌, refl, sym, ap, subst, add-zero, zero-add, ◌∙◌, arith, Bool, true, false, ◌&&◌,
  Option, none, some, Str, List, [], ◌∷◌, ◌++◌, if◌then◌else◌, eq_str, eq_str_comm, eq_str→≡,
  count_if, count_if-append, append_assoc, append-nil, ◌==◌,
}
use jobhunt.Store.Rows.{put}
use jobhunt.Runs.Profile.{find}
use jobhunt.Runs.Lookup.{find-put}
use jobhunt.Writer.Commit.{
  RunEvent, EventRow, next_event_sequence, allocate, or_next, number_events, Sequences,
}

-- The events of a run are numbered from a start, in the order of the rows, without a hole.
abbrev pub numbered_from : Str → ℕ → List EventRow → Bool
numbered_from u n [] = true
numbered_from u n (r ∷ rows) =
    if eq_str r.run_uid u
    then (r.sequence == n) && numbered_from u (n + 1) rows
    else numbered_from u n rows

abbrev pub count_of : Str → List EventRow → ℕ
count_of u rows = count_if (λ r. eq_str r.run_uid u) rows

numbered_from-append :
    (u : Str) (n : ℕ) (xs ys : List EventRow)
    → numbered_from u n xs ≡ true
    → numbered_from u (n + count_of u xs) ys ≡ true
    → numbered_from u n (xs ++ ys) ≡ true
numbered_from-append u n [] ys h k = ground arith
numbered_from-append u n (r ∷ xs) ys h k =
    ground (arith, numbered_from-append u (n + 1) xs ys, numbered_from-append u n xs ys)

next_event_sequence-count :
    (u : Str) (n : ℕ) (rows : List EventRow)
    → numbered_from u n rows ≡ true
    → next_event_sequence rows u ≡ (if count_of u rows == 0 then 0 else n + count_of u rows)
unfolding next_event_sequence
next_event_sequence-count u n [] h = refl
next_event_sequence-count u n (r ∷ rows) h =
    ground (arith, next_event_sequence-count u (n + 1) rows, next_event_sequence-count u n rows)

-- A counter stands at the number of the run's events; a run without one has no new event.
abbrev pub counter_ok : ℕ → ℕ → Option ℕ → Bool
counter_ok total new none = new == 0
counter_ok total new (some m) = m == total

-- Inside a transaction, for one run: the rows on file, the new ones, and the counters.
abbrev pub Numbered : Str → List EventRow → List EventRow → Sequences → Type 0
Numbered u filed new sequences =
    (numbered_from u 0 filed ≡ true)
    × (numbered_from u (count_of u filed) new ≡ true)
    × (counter_ok (count_of u filed + count_of u new) (count_of u new) (find u sequences) ≡ true)

allocate-count :
    (u : Str) (filed new : List EventRow) (sequences : Sequences)
    → Numbered u filed new sequences
    → allocate filed sequences u ≡ count_of u filed + count_of u new
unfolding allocate
allocate-count u filed new sequences h =
    counted (find u sequences) h.2 (next_event_sequence-count u 0 filed h.0)
  where
    counted :
        (c : Option ℕ)
        → counter_ok (count_of u filed + count_of u new) (count_of u new) c ≡ true
        → next_event_sequence filed u ≡ (if count_of u filed == 0 then 0 else 0 + count_of u filed)
        → or_next (next_event_sequence filed u) c ≡ count_of u filed + count_of u new
    counted none k e = ground (arith, e, k)
    counted (some m) k e = ground (arith, k)

count_of-snoc :
    (u : Str) (new : List EventRow) (row : EventRow)
    → count_of u (new ++ row ∷ []) ≡ count_of u new + (if eq_str u row.run_uid then 1 else 0)
count_of-snoc u new row =
    ground
      (arith, count_if-append (λ r. eq_str r.run_uid u) new (row ∷ []), eq_str_comm u row.run_uid)

-- One event more.
Numbered-step :
    (u : Str) (filed new : List EventRow) (sequences : Sequences) (row : EventRow)
    → (eq_str u row.run_uid ≡ true → row.sequence ≡ count_of u filed + count_of u new)
    → Numbered u filed new sequences
    → Numbered u filed (new ++ row ∷ []) (put row.run_uid (row.sequence + 1) sequences)
Numbered-step u filed new sequences row n h = (
  h.0,
  numbered_from-append u (count_of u filed) new (row ∷ []) h.1
      (ground (arith, n, eq_str_comm u row.run_uid)),
  rw (count_of-snoc u new row, find-put u row.run_uid (row.sequence + 1) sequences)
      (stepped (eq_str u row.run_uid) n h.2),
)
  where
    stepped :
        (b : Bool)
        → (b ≡ true → row.sequence ≡ count_of u filed + count_of u new)
        → counter_ok (count_of u filed + count_of u new) (count_of u new) (find u sequences) ≡ true
        → counter_ok
            (count_of u filed + (count_of u new + (if b then 1 else 0)))
            (count_of u new + (if b then 1 else 0))
            (if b then some (row.sequence + 1) else find u sequences)
          ≡ true
    stepped true n h = ground (arith, n refl)
    stepped false n h = rw (add-zero (count_of u new)) h

pub number_events-Numbered :
    (u : Str) (filed new : List EventRow) (sequences : Sequences) (events : List RunEvent)
    → Numbered u filed new sequences
    → Numbered u filed
        (new ++ (number_events filed sequences events).0)
        (number_events filed sequences events).1
unfolding number_events
number_events-Numbered u filed new sequences [] h =
    subst (λ rows. Numbered u filed rows sequences) (sym (append-nil new)) h
number_events-Numbered u filed new sequences (e ∷ events) h =
    let n = allocate filed sequences e.run_uid in
    let row : EventRow = record { run_uid = e.run_uid; sequence = n; event_type = e.event_type } in
    let next = put e.run_uid (n + 1) sequences in
    subst (λ rows. Numbered u filed rows (number_events filed next events).1)
      (append_assoc new (row ∷ []) (number_events filed next events).0)
      (number_events-Numbered u filed (new ++ row ∷ []) next events (
        Numbered-step u filed new sequences row
          (λ s.
            ap (allocate filed sequences) (sym (eq_str→≡ u e.run_uid s))
            ∙ allocate-count u filed new sequences h)
          h))

-- The new rows are filed.
pub filed_away :
    (u : Str) (filed rows : List EventRow) (sequences : Sequences)
    → Numbered u filed rows sequences
    → Numbered u (filed ++ rows) [] sequences
filed_away u filed rows sequences h = (
  numbered_from-append u 0 filed rows h.0 (rw (zero-add (count_of u filed)) h.1),
  refl,
  rw (count_if-append (λ r. eq_str r.run_uid u) filed rows)
      (rested (count_of u filed + count_of u rows) (count_of u rows) (find u sequences) h.2),
)
  where
    rested :
        (total new : ℕ) (c : Option ℕ)
        → counter_ok total new c ≡ true
        → counter_ok (total + 0) 0 c ≡ true
    rested total new none h = refl
    rested total new (some m) h = ground (arith, h)
