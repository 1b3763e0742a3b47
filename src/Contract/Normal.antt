-- ===== src/Contract/Normal.antt =====
-- A constructed record is in normal form: constructing it again changes nothing
-- (webapp/backend/sources/contract.py).
use jobhunt.Prelude.{
  ℕ, ◌+◌, ◌<◌, ◌≡◌, refl, sym, ap, subst, ◌∙◌, Bool, true, false, not, some, Str, List, [], ◌∷◌,
  map, keep, mem, All, if◌then◌else◌, Bool-cases, inl, inr, is_empty, or_else,
}
use jobhunt.Queue.Freshness.{strip}
use jobhunt.Contract.Text.{Platform, normalize_text, collapse_whitespace}
use jobhunt.Contract.Posting.{
  NormalizedPosting, Constructed, PayloadError, normalized, construct, checked, trimmed_urls,
  unique_from, or_none,
}
use jobhunt.Contract.Spaces.{strip_idem, collapse_whitespace_idem}
use jobhunt.Contract.Dates.{normalize_date_idem}

-- Each is a trimmed text that is not empty.
abbrev IsTrimmed : Str → Type 0
IsTrimmed u = (strip u ≡ u) × (is_empty u ≡ false)

-- None of them was seen, and none is repeated.
abbrev Fresh : List Str → List Str → Type 0
Fresh seen [] = Unit
Fresh seen (u ∷ us) = (mem u seen ≡ false) × Fresh (u ∷ seen) us

keep-IsTrimmed : (us : List Str) → All IsTrimmed (keep (λ u. not (is_empty u)) (map strip us))
keep-IsTrimmed [] = tt
keep-IsTrimmed (u ∷ us) = elim (Bool-cases (is_empty (strip u))) [
  | inl e ↦ rw e (keep-IsTrimmed us)
  | inr e ↦ rw e ((strip_idem u, e), keep-IsTrimmed us)
]

unique_from-All : (seen us : List Str) → All IsTrimmed us → All IsTrimmed (unique_from seen us)
unfolding unique_from
unique_from-All seen [] h = tt
unique_from-All seen (u ∷ us) h = elim (Bool-cases (mem u seen)) [
  | inl e ↦ rw e (unique_from-All seen us h.1)
  | inr e ↦ rw e (h.0, unique_from-All (u ∷ seen) us h.1)
]

unique_from-Fresh : (seen us : List Str) → Fresh seen (unique_from seen us)
unfolding unique_from
unique_from-Fresh seen [] = tt
unique_from-Fresh seen (u ∷ us) = elim (Bool-cases (mem u seen)) [
  | inl e ↦ rw e (unique_from-Fresh seen us)
  | inr e ↦ rw e (e, unique_from-Fresh (u ∷ seen) us)
]

unique_from-fixed : (seen us : List Str) → Fresh seen us → unique_from seen us ≡ us
unfolding unique_from
unique_from-fixed seen [] h = refl
unique_from-fixed seen (u ∷ us) h = rw h.0 (ap (◌∷◌ u) (unique_from-fixed (u ∷ seen) us h.1))

trimmed-fixed :
    (us : List Str) → All IsTrimmed us → keep (λ u. not (is_empty u)) (map strip us) ≡ us
trimmed-fixed [] h = refl
trimmed-fixed (u ∷ us) h = rw (h.0.0, h.0.1) (ap (◌∷◌ u) (trimmed-fixed us h.1))

trimmed_urls_idem : (us : List Str) → trimmed_urls (trimmed_urls us) ≡ trimmed_urls us
unfolding trimmed_urls
trimmed_urls_idem us =
    let kept = keep (λ u. not (is_empty u)) (map strip us) in
    ap (unique_from [])
      (trimmed-fixed (unique_from [] kept) (unique_from-All [] kept (keep-IsTrimmed us)))
    ∙ unique_from-fixed [] (unique_from [] kept) (unique_from-Fresh [] kept)

or_none-back : (s : Str) → or_else (or_none s) [] ≡ s
unfolding or_none
or_none-back [] = refl
or_none-back (c ∷ s) = refl

passed :
    (a b c : Bool) (p q : NormalizedPosting)
    → (if a
        then Constructed.error PayloadError.no_source_key
        else if b
        then Constructed.error PayloadError.no_title
        else if c
        then Constructed.error PayloadError.no_url
        else Constructed.posting p)
      ≡ Constructed.posting q
    → p ≡ q
passed true b c p q h = cc
passed false true c p q h = cc
passed false false true p q h = cc
passed false false false p q h = cc

-- The checks return the record that they pass.
checked-posting : (p q : NormalizedPosting) → checked p ≡ Constructed.posting q → p ≡ q
unfolding checked
checked-posting p q h = passed (is_empty p.source_key) (is_empty p.title) (is_empty p.url) p q h

-- What the standard library's functions keep to: `\d` reads the ASCII digits, and collapsing the
-- white space of a text in NFKC leaves it in NFKC.
module _ (pf : Platform) (decimal : (k : ℕ) → k < 10 → pf.digit_of (48 + k) ≡ some k)
    (collapsed : (s : Str)
      → pf.nfkc (collapse_whitespace (pf.nfkc s)) ≡ collapse_whitespace (pf.nfkc s)) where
  normalize_text_idem :
      (s : Str) → normalize_text pf (some (normalize_text pf (some s))) ≡ normalize_text pf (some s)
  unfolding normalize_text
  normalize_text_idem s = elim (Bool-cases (is_empty s)) [
    | inl e ↦ rw e refl
    | inr e ↦
        rw (e, collapsed s, collapse_whitespace_idem (pf.nfkc s))
          (same_branches (is_empty (collapse_whitespace (pf.nfkc s)))
            (collapse_whitespace (pf.nfkc s)) refl)
  ]
    where
      same_branches : (b : Bool) (t : Str) → b ≡ is_empty t → (if b then [] else t) ≡ t
      same_branches b [] h = rw h refl
      same_branches b (c ∷ t) h = rw h refl

  normalized_idem : (p : NormalizedPosting) → normalized pf (normalized pf p) ≡ normalized pf p
  unfolding normalized
  normalized_idem p =
      rw
        (
          strip_idem p.source_key,
          normalize_text_idem p.title,
          normalize_text_idem p.company,
          strip_idem p.url,
          strip_idem p.instance_key,
          normalize_text_idem p.location,
          or_none-back (strip (or_else p.req_id [])),
          strip_idem (or_else p.req_id []),
          normalize_date_idem pf decimal p.posted_date,
          collapse_whitespace_idem p.posted_raw,
          normalize_text_idem p.salary_text,
          trimmed_urls_idem p.alt_urls,
        )
        refl

  -- Constructing a record from the fields of a constructed record gives that record.
  pub construct_idem :
      (p q : NormalizedPosting)
      → construct pf p ≡ Constructed.posting q
      → construct pf q ≡ Constructed.posting q
  unfolding construct
  construct_idem p q h =
      let same = checked-posting (normalized pf p) q h in
      subst (λ r. checked (normalized pf r) ≡ Constructed.posting r) same
        (ap checked (normalized_idem p) ∙ h ∙ ap Constructed.posting (sym same))
