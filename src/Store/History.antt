-- ===== src/Store/History.antt =====
-- What every operation of the store keeps of the attempt rows
-- (webapp/backend/sources/runstore.py, webapp/backend/sources/writer.py).
use jobhunt.Prelude.{
  ℕ, zero, suc, subst, sym, ◌≡◌, ap, ◌∙◌, Bool, true, false, Option, none, some, Str, List, [], ◌∷◌,
  ◌++◌, get_elem?, arith, Bool-cases, ◌⊎◌, inl, inr,
}
use jobhunt.Store.Rows.{SourceRun, is_terminal, update, Metadata}
use jobhunt.Store.Attempts.{
  NewAttempt, Unattempted, Settlement, create_source_run, record_unattempted_source_run,
  update_source_run_progress, finish_source_run, is_open, progressed, settled, merged_metadata,
  new_row, unattempted_row,
}
use jobhunt.Store.Recovery.{Note, recover_orphans, is_orphan, interrupt}

-- The writer's operations on `source_runs`, and the recovery at startup.
pub data Op : Type 0 where
  create : NewAttempt → Op
  unattempt : Unattempted → Op
  progress : Str → ℕ → ℕ → ℕ → Option Str → Op
  finish : Str → Settlement → Op
  recover : Note → List Str → Op

abbrev table : Option (List SourceRun × Bool) → Option (List SourceRun)
table none = none
table (some (rows, inserted)) = some rows

-- `none` is an error, after which the transaction is rolled back.
unfoldable pub apply : Op → List SourceRun → Option (List SourceRun)
apply (create a) rows = create_source_run a rows
apply (unattempt u) rows = table (record_unattempted_source_run u rows)
apply (progress id fetched accepted changed checkpoint) rows =
    some (update_source_run_progress id fetched accepted changed checkpoint rows)
apply (finish id s) rows = some (finish_source_run id s rows).0
apply (recover note excluded) rows = some (recover_orphans note excluded rows []).0

abbrev pub kept : Option (List SourceRun) → List SourceRun → List SourceRun
kept none old = old
kept (some new) old = new

-- Operations in the order of their commits; a refused one leaves the table as it was.
unfoldable pub apply_all : List Op → List SourceRun → List SourceRun
unfolding apply
apply_all [] rows = rows
apply_all (op ∷ ops) rows = apply_all ops (kept (apply op rows) rows)

-- How a row may change: its identity, its timing at the start and its scope never do, and once
-- it is terminal nothing does.
pub record Evolves (r r' : SourceRun) : Type 0 where
  pub source_run_id : r'.source_run_id ≡ r.source_run_id
  pub run_uid : r'.run_uid ≡ r.run_uid
  pub source : r'.source ≡ r.source
  pub step : r'.step ≡ r.step
  pub attempt : r'.attempt ≡ r.attempt
  pub deadline_at : r'.deadline_at ≡ r.deadline_at
  pub requested_at : r'.requested_at ≡ r.requested_at
  pub started_at : r'.started_at ≡ r.started_at
  pub inventory_scope : r'.inventory_scope ≡ r.inventory_scope
  pub settled : (is_terminal r.status ≡ false) ⊎ (r' ≡ r)

Evolves-self : (r : SourceRun) → Evolves r r
Evolves-self r = ground arith

trans_settled :
    (a b c : SourceRun)
    → (is_terminal a.status ≡ false) ⊎ (b ≡ a)
    → (is_terminal b.status ≡ false) ⊎ (c ≡ b)
    → (is_terminal a.status ≡ false) ⊎ (c ≡ a)
trans_settled a b c (inl live) k = inl live
trans_settled a b c (inr e) (inl live) = inl (ap (λ r. is_terminal r.status) (sym e) ∙ live)
trans_settled a b c (inr e) (inr f) = inr (f ∙ e)

Evolves-trans : (a b c : SourceRun) → Evolves a b → Evolves b c → Evolves a c
Evolves-trans a b c h k = record {
  source_run_id = k.source_run_id ∙ h.source_run_id;
  run_uid = k.run_uid ∙ h.run_uid;
  source = k.source ∙ h.source;
  step = k.step ∙ h.step;
  attempt = k.attempt ∙ h.attempt;
  deadline_at = k.deadline_at ∙ h.deadline_at;
  requested_at = k.requested_at ∙ h.requested_at;
  started_at = k.started_at ∙ h.started_at;
  inventory_scope = k.inventory_scope ∙ h.inventory_scope;
  settled = trans_settled a b c h.settled k.settled;
}

-- A row at a position, and what it became.
abbrev pub Kept : SourceRun → ℕ → List SourceRun → Type 0
Kept r i rows = (r' : SourceRun) × (get_elem? rows i ≡ some r') × Evolves r r'

update-Kept :
    (p : SourceRun → Bool) (f : SourceRun → SourceRun)
    → ((r : SourceRun) → p r ≡ true → Evolves r (f r))
    → (rows : List SourceRun) (i : ℕ) (r : SourceRun) → get_elem? rows i ≡ some r
    → Kept r i (update p f rows)
update-Kept p f ev [] i r at = cc
update-Kept p f ev (x ∷ rows) zero r at =
    let same : x ≡ r = cc in
    elim (Bool-cases (p x)) [
      | inl hit ↦ (f x, rw hit, subst (λ y. Evolves y (f x)) same (ev x hit))
      | inr miss ↦ (x, rw miss, subst (λ y. Evolves y x) same (Evolves-self x))
    ]
update-Kept p f ev (x ∷ rows) (suc i) r at = update-Kept p f ev rows i r at

append-Kept :
    (rows new : List SourceRun) (i : ℕ) (r : SourceRun)
    → get_elem? rows i ≡ some r
    → Kept r i (rows ++ new)
append-Kept [] new i r at = cc
append-Kept (x ∷ rows) new zero r at = (r, at, Evolves-self r)
append-Kept (x ∷ rows) new (suc i) r at = append-Kept rows new i r at

-- An update of open rows may do what it likes to the fields that are not fixed.
open_row : (id : Str) (r : SourceRun) → is_open id r ≡ true → is_terminal r.status ≡ false
unfolding is_open is_terminal
open_row id r h = ground arith

progressed-Evolves :
    (id : Str) (fetched accepted changed : ℕ) (c : Option Str) (r : SourceRun)
    → is_open id r ≡ true
    → Evolves r (progressed fetched accepted changed c r)
unfolding progressed
progressed-Evolves id fetched accepted changed c r h = ground (arith, open_row id r h)

settled-Evolves :
    (id : Str) (s : Settlement) (m : Option Metadata) (r : SourceRun)
    → is_open id r ≡ true
    → Evolves r (settled s m r)
unfolding settled
settled-Evolves id s m r h = ground (arith, open_row id r h)

interrupt-Evolves :
    (note : Note) (excluded : List Str) (r : SourceRun)
    → is_orphan excluded r ≡ true
    → Evolves r (interrupt note r)
unfolding interrupt is_orphan is_terminal
interrupt-Evolves note excluded r h = ground arith

-- An insert appends its row, or is refused or ignored.
abbrev Inserts : SourceRun → List SourceRun → List SourceRun → Type 0
Inserts r rows rows' = (rows' ≡ rows) ⊎ (rows' ≡ rows ++ r ∷ [])

create-Inserts :
    (a : NewAttempt) (rows : List SourceRun)
    → Inserts (new_row a) rows (kept (create_source_run a rows) rows)
unfolding create_source_run
create-Inserts a rows = ground arith

unattempted-Inserts :
    (u : Unattempted) (rows : List SourceRun)
    → Inserts (unattempted_row u) rows (kept (table (record_unattempted_source_run u rows)) rows)
unfolding record_unattempted_source_run
unattempted-Inserts u rows = ground arith

Inserts-Kept :
    (new : SourceRun) (rows rows' : List SourceRun) (i : ℕ) (r : SourceRun)
    → Inserts new rows rows'
    → get_elem? rows i ≡ some r
    → Kept r i rows'
Inserts-Kept new rows rows' i r (inl e) at = rw e (r, at, Evolves-self r)
Inserts-Kept new rows rows' i r (inr e) at = rw e (append-Kept rows (new ∷ []) i r at)

apply-Kept :
    (op : Op) (rows : List SourceRun) (i : ℕ) (r : SourceRun)
    → get_elem? rows i ≡ some r
    → Kept r i (kept (apply op rows) rows)
unfolding apply update_source_run_progress finish_source_run recover_orphans
apply-Kept (create a) rows i r at = Inserts-Kept (new_row a) rows _ i r (create-Inserts a rows) at
apply-Kept (unattempt u) rows i r at =
    Inserts-Kept (unattempted_row u) rows _ i r (unattempted-Inserts u rows) at
apply-Kept (progress id fetched accepted changed c) rows i r at =
    update-Kept _ _ (progressed-Evolves id fetched accepted changed c) rows i r at
apply-Kept (finish id s) rows i r at =
    update-Kept _ _ (settled-Evolves id s (merged_metadata rows id s.metadata)) rows i r at
apply-Kept (recover note excluded) rows i r at =
    update-Kept _ _ (interrupt-Evolves note excluded) rows i r at

-- Whatever is committed later, a row stays at its place with its identity, its start and its
-- scope, and a terminal row stays exactly as it is.
pub history-Kept :
    (ops : List Op) (rows : List SourceRun) (i : ℕ) (r : SourceRun)
    → get_elem? rows i ≡ some r
    → Kept r i (apply_all ops rows)
unfolding apply_all
history-Kept [] rows i r at = (r, at, Evolves-self r)
history-Kept (op ∷ ops) rows i r at =
    let (r', at', ev) = apply-Kept op rows i r at in
    let (r'', at'', ev') = history-Kept ops (kept (apply op rows) rows) i r' at' in
    (r'', at'', Evolves-trans r r' r'' ev ev')
