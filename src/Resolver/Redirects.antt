-- ===== src/Resolver/Redirects.antt =====
-- The resolution of a run's aggregator postings, and what it writes
-- (webapp/backend/sources/resolver.py).
use jobhunt.Prelude.{
  ℕ, ◌+◌, Bool, true, false, not, ◌&&◌, Option, none, some, Str, codes, List, [], ◌∷◌, ◌++◌, any,
  map, eq_str, if◌then◌else◌, is_some, or_else, sort_by, list_order, nat_order,
}
use jobhunt.Store.Presence.{is_source_req}
use jobhunt.Contract.Text.{Platform}
use jobhunt.Records.Tables.{AliasRow, insert_or_ignore}
use jobhunt.Resolver.Names.{title_jaccard}
use jobhunt.Resolver.Local.{
  Observation, DirectIndex, Subject, ResolutionOutcome, resolve_local, is_ambiguous,
}

pub record Redirect : Type 0 where
  pub from_posting_id : Str
  pub to_posting_id : Str
  pub reason : Str
  pub created_at : Str

-- A row of `identity_evidence`; its id is derived from its hash, which covers its content.
pub record EvidenceRow : Type 0 where
  pub evidence_id : Str
  pub posting_id : Str
  pub kind : Str
  pub observed_at : Str

pub record Invalidation : Type 0 where
  pub invalidation_id : Str
  pub posting_id : Str
  pub reason : Str
  pub created_run_uid : Str

-- The tables that the pass writes.
pub record Merges : Type 0 where
  pub redirects : List Redirect
  pub evidence : List EvidenceRow
  pub invalidations : List Invalidation

pub record Report : Type 0 where
  pub matched : List (Str × Str)
  pub ambiguous : ℕ
  pub invalidated : List Str

unfoldable pub is_from : Str → Redirect → Bool
is_from posting_id r = eq_str r.from_posting_id posting_id

-- A posting redirects once, never to itself, and the first decision stays.
unfoldable pub record_redirect : Redirect → List Redirect → List Redirect
unfolding is_from
record_redirect r redirects =
    if eq_str r.from_posting_id r.to_posting_id
    then redirects
    else insert_or_ignore (is_from r.from_posting_id) r redirects

unfoldable pub is_evidence : Str → EvidenceRow → Bool
is_evidence id r = eq_str r.evidence_id id

unfoldable pub is_invalidation : Str → Invalidation → Bool
is_invalidation id r = eq_str r.invalidation_id id

abbrev direct_text : Observation → List Str
direct_text c = c.posting_id ∷ c.namespace ∷ c.title ∷ c.location ∷ []

concat : List (List Str) → List Str
concat [] = []
concat (l ∷ ls) = l ++ concat ls

-- What the pass is run for: DIRECT_CATEGORIES as a test of a namespace, the run and the time.
pub record Pass : Type 0 where
  pub is_direct : Str → Bool
  pub run_uid : Str
  pub at : Str

module _ (pf : Platform) (pass : Pass) where
  unfoldable pub has_direct_rank0_alias : List AliasRow → Str → Bool
  has_direct_rank0_alias aliases posting_id =
      any
        (λ a.
          (eq_str a.posting_id posting_id
            && (is_source_req a.alias_kind && not (is_some a.valid_to)))
          && pass.is_direct a.namespace)
        aliases

  unfoldable pub evidence_id : Str → Str → List Str → Str
  evidence_id posting_id kind payload = pf.uuid5 (codes "evidence") (kind ∷ posting_id ∷ payload)

  unfoldable pub evidence : Str → Str → List Str → List EvidenceRow → List EvidenceRow
  unfolding evidence_id
  evidence posting_id kind payload rows =
      insert_or_ignore (is_evidence (evidence_id posting_id kind payload))
        (record {
          evidence_id = evidence_id posting_id kind payload;
          posting_id = posting_id;
          kind = kind;
          observed_at = pass.at;
        })
        rows

  unfoldable pub invalidation_id : Str → Str → Str
  invalidation_id posting_id reason =
      pf.uuid5 (codes "invalidation") (posting_id ∷ reason ∷ pass.run_uid ∷ [])

  unfoldable pub emit_invalidation : Str → Str → List Invalidation → List Invalidation × Bool
  unfolding invalidation_id
  emit_invalidation posting_id reason rows = (
    insert_or_ignore (is_invalidation (invalidation_id posting_id reason))
        (record {
          invalidation_id = invalidation_id posting_id reason;
          posting_id = posting_id;
          reason = reason;
          created_run_uid = pass.run_uid;
        })
        rows,
    not (any (is_invalidation (invalidation_id posting_id reason)) rows),
  )

  unfoldable pub matched_text : Subject → Observation → List Str
  matched_text s c =
      c.posting_id
      ∷ s.posting_id
      ∷ c.namespace
      ∷ pf.str_of_nat (title_jaccard pf s.title (some c.title)).0
      ∷ pf.str_of_nat (title_jaccard pf s.title (some c.title)).1
      ∷ []

  unfoldable pub ambiguous_text : Subject → List Observation → List Str
  unfolding concat
  ambiguous_text s cs =
      s.posting_id
      ∷ or_else s.company []
      ∷ or_else s.title []
      ∷ or_else s.location []
      ∷ concat (map direct_text (sort_by (list_order nat_order) (λ c. c.posting_id) cs))

  unfoldable pub write_match : Subject → Observation → Merges × Report → Merges × Report
  unfolding matched_text
  write_match s c (t, out) =
      let emitted = emit_invalidation c.posting_id (codes "canonical-match") t.invalidations in
      (
        record {
          redirects =
              record_redirect
                (record {
                  from_posting_id = s.posting_id;
                  to_posting_id = c.posting_id;
                  reason = codes "aggregator-local-resolution";
                  created_at = pass.at;
                })
                t.redirects;
          evidence = evidence c.posting_id (codes "canonical-match") (matched_text s c) t.evidence;
          invalidations = emitted.0;
        },
        record {
          matched = out.matched ++ (s.posting_id, c.posting_id) ∷ [];
          ambiguous = out.ambiguous;
          invalidated = if emitted.1 then out.invalidated ++ c.posting_id ∷ [] else out.invalidated;
        },
      )

  unfoldable pub write_matched : Subject → Option Observation → Merges × Report → Merges × Report
  unfolding write_match
  write_matched s none done = done
  write_matched s (some c) done = write_match s c done

  -- The ambiguity first, then no match, then the match.
  unfoldable pub write_outcome :
      Subject → Bool → ResolutionOutcome → Merges × Report → Merges × Report
  unfolding write_matched ambiguous_text
  write_outcome s true o (t, out) = (
    record t {
      evidence =
          evidence s.posting_id (codes "canonical-match-ambiguous") (ambiguous_text s o.candidates)
            t.evidence;
    },
    record out { ambiguous = out.ambiguous + 1 },
  )
  write_outcome s false o (t, out) = write_matched s o.matched (t, out)

  unfoldable pub resolve_one :
      List AliasRow → DirectIndex → Subject → Merges × Report → Merges × Report
  unfolding write_outcome
  resolve_one aliases index s done =
      if has_direct_rank0_alias aliases s.posting_id
      then done
      else write_outcome s (is_ambiguous (resolve_local pf s index)) (resolve_local pf s index) done

  unfoldable pub resolve_all :
      List AliasRow → DirectIndex → List Subject → Merges × Report → Merges × Report
  resolve_all aliases index [] done = done
  resolve_all aliases index (s ∷ ss) done =
      resolve_all aliases index ss (resolve_one aliases index s done)

  unfoldable pub resolve_aggregators :
      List AliasRow → DirectIndex → List Subject → Merges → Merges × Report
  resolve_aggregators aliases index subjects t =
      resolve_all aliases index subjects
        (t, record { matched = []; ambiguous = 0; invalidated = [] })
