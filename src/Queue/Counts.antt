-- ===== src/Queue/Counts.antt =====
-- The counted reasons and the items still undecided, as sums (webapp/backend/ranking.py).
use jobhunt.Prelude.{
  ℕ, ◌+◌, ◌≡◌, refl, true, false, not, Str, List, [], ◌∷◌, ◌++◌, map, some, arith, length, count_if,
  mem, distinct, eq_str, eq_str_refl, eq_str→≡, eq_str_comm, Bool-cases, inl, inr, sort_by,
  insert_by, list_order, nat_order, ltb, if◌then◌else◌,
}
use jobhunt.Queue.Lanes.{Counts, count, Exclusion, excluded_row, total, Item}
use jobhunt.Queue.Eligibility.{Reason, reason_text, beyond_cap, next_up}
use jobhunt.Queue.Compose.{overflow}

pub total-count : (r : Reason) (cs : Counts) → total (count r cs) ≡ total cs + 1
unfolding total count
total-count r [] = refl
total-count r ((q, n) ∷ cs) = ground (arith, total-count r cs)

abbrev pub name : Item → Str
name item = item.0.url_b64

-- How many of the items no push has decided.
abbrev pub left : List Str → List Item → ℕ
left decided = count_if (λ item. not (mem (name item) decided))

pub left-absent :
    (u : Str) (decided : List Str) (items : List Item)
    → mem u (map name items) ≡ false
    → left (u ∷ decided) items ≡ left decided items
left-absent u decided [] h = refl
left-absent u decided (x ∷ xs) h = ground (arith, left-absent u decided xs, eq_str_comm u (name x))

-- Deciding one more of distinct items leaves one less.
pub left-decide :
    (u : Str) (decided : List Str) (items : List Item)
    → mem u (map name items) ≡ true
    → distinct (map name items) ≡ true
    → mem u decided ≡ false
    → left (u ∷ decided) items + 1 ≡ left decided items
left-decide u decided [] m d n = cc
left-decide u decided (x ∷ xs) m d n = elim (Bool-cases (eq_str u (name x))) [
  | inl e ↦
      let same : u ≡ name x = eq_str→≡ u (name x) e in
      ground (arith, same, eq_str_refl u, eq_str_comm u (name x), left-absent u decided xs)
  | inr e ↦ ground (arith, e, eq_str_comm u (name x), left-decide u decided xs)
]

pub overflow-total :
    (cap : ℕ) (decided : List Str) (n : ℕ) (items : List Item) (counts : Counts)
    (detailed : List Exclusion)
    → total (overflow cap decided n items counts detailed).0 ≡ total counts + left decided items
unfolding overflow
overflow-total cap decided n [] counts detailed = omega arith
overflow-total cap decided n (item ∷ items) counts detailed =
    let n' : ℕ = if ltb n cap then n + 1 else n in
    let row : Exclusion = excluded_row item.0 beyond_cap (some next_up) in
    let longer : List Exclusion = if ltb n cap then detailed ++ row ∷ [] else detailed in
    elim (Bool-cases (mem (name item) decided)) [
      | inl e ↦ rw e (omega (arith, overflow-total cap decided n items counts detailed))
      | inr e ↦ rw e (
          omega (
            arith,
            overflow-total cap decided n' items (count beyond_cap counts) longer,
            total-count beyond_cap counts,
          ))
    ]

pub left-none : (items : List Item) → left [] items ≡ length items
left-none [] = refl
left-none (x ∷ xs) = omega (arith, left-none xs)

pub total-insert_by :
    (rc : Reason × ℕ) (cs : Counts)
    → total (insert_by (list_order nat_order) (λ e. reason_text e.0) rc cs) ≡ rc.1 + total cs
unfolding insert_by total
total-insert_by (r, n) [] = refl
total-insert_by (r, n) ((q, m) ∷ cs) = ground (arith, total-insert_by (r, n) cs)

pub total-sort_by :
    (cs : Counts) → total (sort_by (list_order nat_order) (λ e. reason_text e.0) cs) ≡ total cs
unfolding sort_by total
total-sort_by [] = refl
total-sort_by ((r, n) ∷ cs) = omega (
  arith,
  total-insert_by (r, n) (sort_by (list_order nat_order) (λ e. reason_text e.0) cs),
  total-sort_by cs,
)
