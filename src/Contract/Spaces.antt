-- ===== src/Contract/Spaces.antt =====
-- `str.strip` and the collapsing of white space change nothing the second time
-- (webapp/backend/sources/contract.py).
use mathlib.Core.List.{reverse, reverse-cons, reverse-append}
use jobhunt.Prelude.{
  ℕ, ◌≡◌, refl, sym, ap, ◌∙◌, arith, Bool, true, false, not, ◌&&◌, ◌||◌, Str, [], ◌∷◌, ◌++◌, ◌==◌,
  if◌then◌else◌, is_empty, Bool-cases, inl, inr, ==_iff,
}
use jobhunt.Queue.Job.{is_space}
use jobhunt.Queue.Freshness.{strip, lstrip}
use jobhunt.Contract.Text.{collapse_whitespace, squash, join_space}

pub is_empty→≡ : (s : Str) → is_empty s ≡ true → s ≡ []
is_empty→≡ [] h = refl
is_empty→≡ (c ∷ s) h = cc

-- `str.rstrip`, from the front.
unfoldable pub rstrip : Str → Str
rstrip [] = []
rstrip (c ∷ s) = let rest = rstrip s in if is_space c && is_empty rest then [] else c ∷ rest

lstrip-snoc :
    (s : Str) (c : ℕ)
    → lstrip (s ++ c ∷ []) ≡ (if is_empty (lstrip s) then lstrip (c ∷ []) else lstrip s ++ c ∷ [])
lstrip-snoc [] c = refl
lstrip-snoc (x ∷ s) c = elim (Bool-cases (is_space x)) [
  | inl e ↦ rw e (lstrip-snoc s c)
  | inr e ↦ rw e refl
]

reverse-empty : (s : Str) → is_empty (reverse s) ≡ is_empty s
reverse-empty [] = refl
reverse-empty (c ∷ s) = ap is_empty (reverse-cons c s) ∙ snoc_empty (reverse s) c
  where
    snoc_empty : (s : Str) (c : ℕ) → is_empty (s ++ c ∷ []) ≡ false
    snoc_empty [] c = refl
    snoc_empty (d ∷ s) c = refl

rstrip-reverse : (s : Str) → reverse (lstrip (reverse s)) ≡ rstrip s
unfolding rstrip
rstrip-reverse [] = refl
rstrip-reverse (c ∷ s) =
    ap (λ t. reverse (lstrip t)) (reverse-cons c s)
    ∙ ap reverse (lstrip-snoc (reverse s) c)
    ∙ last (lstrip (reverse s)) (rstrip-reverse s)
  where
    last :
        (t : Str)
        → reverse t ≡ rstrip s
        → reverse (if is_empty t then lstrip (c ∷ []) else t ++ c ∷ [])
          ≡ (if is_space c && is_empty (rstrip s) then [] else c ∷ rstrip s)
    last [] h = elim (Bool-cases (is_space c)) [
      | inl e ↦ rw (e, ap is_empty (sym h)) refl
      | inr e ↦ rw e (ap (◌∷◌ c) h)
    ]
    last (d ∷ t) h =
        let filled = ap is_empty (sym h) ∙ reverse-empty (d ∷ t) in
        reverse-append (d ∷ t) (c ∷ []) ∙ elim (Bool-cases (is_space c)) [
          | inl e ↦ rw (e, filled) (ap (◌∷◌ c) h)
          | inr e ↦ rw e (ap (◌∷◌ c) h)
        ]

pub strip-rstrip : (s : Str) → strip s ≡ rstrip (lstrip s)
unfolding strip
strip-rstrip s = rstrip-reverse (lstrip s)

lstrip_idem : (s : Str) → lstrip (lstrip s) ≡ lstrip s
lstrip_idem [] = refl
lstrip_idem (c ∷ s) = elim (Bool-cases (is_space c)) [
  | inl e ↦ rw e (lstrip_idem s)
  | inr e ↦ rw (e, e) refl
]

lstrip-rstrip : (s : Str) → lstrip (rstrip (lstrip s)) ≡ rstrip (lstrip s)
unfolding rstrip
lstrip-rstrip [] = refl
lstrip-rstrip (c ∷ s) = elim (Bool-cases (is_space c)) [
  | inl e ↦ rw e (lstrip-rstrip s)
  | inr e ↦ rw (e, e, e) refl
]

rstrip_idem : (s : Str) → rstrip (rstrip s) ≡ rstrip s
unfolding rstrip
rstrip_idem [] = refl
rstrip_idem (c ∷ s) = elim (Bool-cases (is_space c && is_empty (rstrip s))) [
  | inl e ↦ rw e refl
  | inr e ↦ rw e (rw (rstrip_idem s, e) refl)
]

pub strip_idem : (s : Str) → strip (strip s) ≡ strip s
strip_idem s =
    strip-rstrip (strip s)
    ∙ ap (λ t. rstrip (lstrip t)) (strip-rstrip s)
    ∙ ap rstrip (lstrip-rstrip s)
    ∙ rstrip_idem (lstrip s)
    ∙ sym (strip-rstrip s)

-- No white space but single spaces.
starts_space : Str → Bool
starts_space [] = false
starts_space (c ∷ s) = is_space c

squashed : Str → Bool
unfolding starts_space
squashed [] = true
squashed (c ∷ s) = (not (is_space c) || (c == 32 && not (starts_space s))) && squashed s

space-is_space : (c : ℕ) → (c == 32) ≡ true → is_space c ≡ true
unfolding is_space
space-is_space c h = rw ((==_iff c 32).0 h) refl

space_32 : is_space 32 ≡ true
unfolding is_space
space_32 = refl

tail-squashed : (c : ℕ) (s : Str) → squashed (c ∷ s) ≡ true → squashed s ≡ true
unfolding squashed
tail-squashed c s h = ground arith

join_space-squashed : (s : Str) → squashed s ≡ true → squashed (join_space s) ≡ true
unfolding squashed join_space starts_space
join_space-squashed [] h = rw space_32 refl
join_space-squashed (d ∷ s) h = elim (Bool-cases (d == 32)) [
  | inl e ↦ rw e h
  | inr e ↦ rw e (ground (arith, space_32, e, h))
]

squash-squashed : (s : Str) → squashed (squash s) ≡ true
unfolding squash squashed
squash-squashed [] = refl
squash-squashed (c ∷ s) = elim (Bool-cases (is_space c)) [
  | inl e ↦ rw e (join_space-squashed (squash s) (squash-squashed s))
  | inr e ↦ rw (e, e) (squash-squashed s)
]

-- A space before a text that begins with none.
join_space-fixed :
    (c : ℕ) (s : Str) → (c == 32) ≡ true → starts_space s ≡ false → join_space s ≡ c ∷ s
unfolding join_space starts_space
join_space-fixed c [] e h = ap (λ k. k ∷ []) (sym ((==_iff c 32).0 e))
join_space-fixed c (d ∷ s) e h = elim (Bool-cases (d == 32)) [
  | inl f ↦ ground (arith, space-is_space d, f, h)
  | inr f ↦ rw f (ap (λ k. k ∷ d ∷ s) (sym ((==_iff c 32).0 e)))
]

squash-fixed : (s : Str) → squashed s ≡ true → squash s ≡ s
unfolding squash squashed
squash-fixed [] h = refl
squash-fixed (c ∷ s) h = elim (Bool-cases (is_space c)) [
  | inl e ↦
      rw (e, squash-fixed s (tail-squashed c s h))
        (join_space-fixed c s (ground (arith, e, h)) (ground (arith, e, h)))
  | inr e ↦ rw e (ap (◌∷◌ c) (squash-fixed s (tail-squashed c s h)))
]

lstrip-squashed : (s : Str) → squashed s ≡ true → squashed (lstrip s) ≡ true
lstrip-squashed [] h = h
lstrip-squashed (c ∷ s) h = elim (Bool-cases (is_space c)) [
  | inl e ↦ rw e (lstrip-squashed s (tail-squashed c s h))
  | inr e ↦ rw e h
]

rstrip-starts_space : (s : Str) → starts_space s ≡ false → starts_space (rstrip s) ≡ false
unfolding rstrip starts_space
rstrip-starts_space [] h = refl
rstrip-starts_space (c ∷ s) h = rw h h

rstrip-squashed : (s : Str) → squashed s ≡ true → squashed (rstrip s) ≡ true
unfolding squashed rstrip
rstrip-squashed [] h = refl
rstrip-squashed (c ∷ s) h = elim (Bool-cases (is_space c && is_empty (rstrip s))) [
  | inl e ↦ rw e refl
  | inr e ↦ rw e (ground (arith, rstrip-squashed s (tail-squashed c s h), rstrip-starts_space s, h))
]

-- Collapsing the white space of a collapsed text changes nothing.
pub collapse_whitespace_idem :
    (s : Str) → collapse_whitespace (collapse_whitespace s) ≡ collapse_whitespace s
unfolding collapse_whitespace
collapse_whitespace_idem s =
    ap strip (
      ap squash (strip-rstrip (squash s))
      ∙ squash-fixed (rstrip (lstrip (squash s)))
          (rstrip-squashed (lstrip (squash s)) (lstrip-squashed (squash s) (squash-squashed s)))
      ∙ sym (strip-rstrip (squash s)))
    ∙ strip_idem (squash s)
