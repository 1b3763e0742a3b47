-- ===== src/Resolver/Survivor.antt =====
-- The survivor of a merge, and the redirects (webapp/backend/sources/resolver.py).
use jobhunt.Prelude.{
  ◌≡◌, refl, sym, arith, Bool, true, false, not, ◌&&◌, Option, none, some, Str, List, [], ◌∷◌, any,
  eq_str, if◌then◌else◌, is_some, ◌⊎◌, ap₂, le_list, le_list_total, le_list_antisym, list_order,
  nat_order,
}
use jobhunt.Store.Presence.{is_source_req}
use jobhunt.Records.Tables.{PostingRow, AliasRow, is_posting, first_where}

-- The tables that a survivor is chosen by.
pub record Corpus : Type 0 where
  pub postings : List PostingRow
  pub aliases : List AliasRow

unfoldable pub has_rank0_alias : Corpus → Str → Bool
has_rank0_alias t posting_id =
    any
      (λ a.
        eq_str a.posting_id posting_id && (is_source_req a.alias_kind && not (is_some a.valid_to)))
      t.aliases

first_seen_of : Option PostingRow → Str
first_seen_of none = []
first_seen_of (some p) = p.first_seen_at

unfoldable pub first_seen : Corpus → Str → Str
unfolding first_seen_of
first_seen t posting_id = first_seen_of (first_where (is_posting posting_id) t.postings)

-- `(first_seen, id)`, compared as the tuple is.
abbrev age_key : Corpus → Str → List Str
age_key t posting_id = first_seen t posting_id ∷ posting_id ∷ []

abbrev is_older : Corpus → Str → Str → Bool
is_older t left right = le_list (list_order nat_order) (age_key t left) (age_key t right)

-- The survivor, and the loser.
unfoldable pub choose_survivor : Corpus → Str → Str → Str × Str
choose_survivor t left right =
    let left_req = has_rank0_alias t left in
    let right_req = has_rank0_alias t right in
    if left_req && not right_req
    then (left, right)
    else if right_req && not left_req
    then (right, left)
    else if is_older t left right
    then (left, right)
    else (right, left)

by_age {ℓ} :
    {A : Type ℓ} (p q : Bool) (x y : A)
    → (p ≡ true) ⊎ (q ≡ true)
    → (p ≡ true → q ≡ true → x ≡ y)
    → (if p then x else y) ≡ (if q then y else x)
by_age true true x y h k = k refl refl
by_age true false x y h k = refl
by_age false true x y h k = refl
by_age false false x y h k = ground arith

by_alias {ℓ} :
    {A : Type ℓ} (b c p q : Bool) (x y : A)
    → (if p then x else y) ≡ (if q then y else x)
    → (if b && not c then x else if c && not b then y else if p then x else y)
      ≡ (if c && not b then y else if b && not c then x else if q then y else x)
by_alias true true p q x y h = h
by_alias true false p q x y h = refl
by_alias false true p q x y h = refl
by_alias false false p q x y h = h

same_age :
    (t : Corpus) (left right : Str)
    → is_older t left right ≡ true
    → is_older t right left ≡ true
    → left ≡ right
same_age t left right h k =
    second_same (le_list_antisym (list_order nat_order) (age_key t left) (age_key t right) h k)
  where
    second_same : {a b c e : Str} → a ∷ b ∷ [] ≡ c ∷ e ∷ [] → b ≡ e
    second_same q = cc

-- Two postings have the same survivor and the same loser in whichever order they are compared.
pub choose_survivor_comm :
    (t : Corpus) (left right : Str) → choose_survivor t left right ≡ choose_survivor t right left
unfolding choose_survivor
choose_survivor_comm t left right =
    by_alias (has_rank0_alias t left) (has_rank0_alias t right) (is_older t left right)
      (is_older t right left) (left, right) (right, left)
      (by_age (is_older t left right) (is_older t right left) (left, right) (right, left)
        (le_list_total (list_order nat_order) (age_key t left) (age_key t right))
        (λ h k. ap₂ (λ a b. (a, b)) (same_age t left right h k) (sym (same_age t left right h k))))
