-- ===== src/Records/Identity.antt =====
-- The first pass of `write_records`: the posting of each record, by its identity claims
-- (webapp/backend/sources/runstore.py).
use jobhunt.Prelude.{
  ℕ, ◌+◌, Bool, false, not, Option, none, some, Str, codes, List, [], ◌∷◌, ◌++◌, any, eq_str,
  if◌then◌else◌, length, ◌==◌,
}
use jobhunt.Store.Rows.{coalesce}
use jobhunt.Store.Presence.{AliasKind}
use jobhunt.Contract.Text.{Platform}
use jobhunt.Contract.Posting.{IdentityClaim, NormalizedPosting, canonical_fields, identity_claims}
use jobhunt.Records.Tables.{
  PostingRow, AliasRow, EvidenceRow, is_posting, is_evidence, active_alias, insert_or_ignore,
}

-- What the batch is written for.
pub record Delivery : Type 0 where
  pub run_uid : Str
  pub source_run_id : Str
  pub recorded_at : Str

-- The requisition claim alone when there is one.
unfoldable pub resolving : List IdentityClaim → List IdentityClaim
resolving [] = []
resolving (c ∷ cs) = if c.rank == 0 then c ∷ [] else c ∷ cs

unfoldable pub first_hit : List AliasRow → List IdentityClaim → Option AliasRow
first_hit aliases [] = none
first_hit aliases (c ∷ cs) = coalesce (active_alias aliases c) (first_hit aliases cs)

-- A record with its posting, the alias that resolved it, and whether the posting is new.
pub record Identified : Type 0 where
  pub posting_id : Str
  pub alias_id : Option Str
  pub first_seen_in_run : Bool

kind_text : AliasKind → Str
kind_text AliasKind.source_req = codes "source_req"
kind_text AliasKind.url = codes "url"

-- What attaching the claims of a record writes.
pub record Attached : Type 0 where
  pub aliases : List AliasRow
  pub evidence : List EvidenceRow
  pub conflicts : ℕ

-- The state of the first pass: its tables and its counts.
pub record Pass : Type 0 where
  pub postings : List PostingRow
  pub aliases : List AliasRow
  pub evidence : List EvidenceRow
  pub conflicts : ℕ
  pub created : ℕ
  pub skipped : ℕ

-- `resolved.append`, for a record that has a claim.
abbrev pub cons_some {ℓ} : {A : Type ℓ} → Option A → List A → List A
cons_some none xs = xs
cons_some (some x) xs = x ∷ xs

module _ (pf : Platform) where
  unfoldable pub posting_id_for_claim : IdentityClaim → Str
  unfolding kind_text
  posting_id_for_claim c =
      pf.uuid5 (codes "posting") (kind_text c.kind ∷ c.namespace ∷ c.value ∷ [])

  -- The hash covers the claim, both postings and the record, and not the attempt.
  unfoldable pub conflict_hash : NormalizedPosting → Str → Str → IdentityClaim → Str
  unfolding kind_text
  conflict_hash r posting_id other c = pf.sha256_json (
      (codes "alias_kind", kind_text c.kind)
      ∷ (codes "namespace", c.namespace)
      ∷ (codes "value", c.value)
      ∷ (codes "rank", pf.str_of_nat c.rank)
      ∷ (codes "resolved_posting_id", posting_id)
      ∷ (codes "conflicting_posting_id", other)
      ∷ canonical_fields pf r)

module _ (pf : Platform) (d : Delivery) where
  posting_row : Str → PostingRow
  posting_row posting_id = record {
    posting_id = posting_id;
    first_seen_at = d.recorded_at;
    created_at = d.recorded_at;
  }

  -- A hit is the posting; no hit mints one from the first claim.
  unfoldable pub resolve :
      IdentityClaim → Option AliasRow → List PostingRow → Identified × List PostingRow
  unfolding posting_row
  resolve c (some a) postings = (
    record { posting_id = a.posting_id; alias_id = some a.alias_id; first_seen_in_run = false },
    postings,
  )
  resolve c none postings =
      let id = posting_id_for_claim pf c in
      (
        record {
          posting_id = id;
          alias_id = none;
          first_seen_in_run = not (any (is_posting id) postings);
        },
        insert_or_ignore (is_posting id) (posting_row id) postings,
      )

  unfoldable pub insert_alias : IdentityClaim → Str → List AliasRow → AliasRow
  insert_alias c posting_id aliases = record {
    alias_id = pf.new_uid (length aliases);
    posting_id = posting_id;
    alias_kind = c.kind;
    namespace = c.namespace;
    value = c.value;
    url = c.url;
    req_id = c.req_id;
    confidence = if c.rank == 0 then 2 else 1;
    valid_from = d.recorded_at;
    valid_to = none;
  }

  evidence_row : Str → Str → EvidenceRow
  evidence_row posting_id hash = record {
    evidence_id = pf.uuid5 (codes "evidence") (hash ∷ []);
    posting_id = posting_id;
    evidence_hash = hash;
    first_observed_by = d.source_run_id;
    observed_at = d.recorded_at;
  }

  unfoldable pub record_conflict : Str → Str → List EvidenceRow → List EvidenceRow
  unfolding evidence_row
  record_conflict posting_id hash evidence =
      insert_or_ignore (is_evidence hash) (evidence_row posting_id hash) evidence

  unfoldable pub attach_one :
      NormalizedPosting → Str → IdentityClaim → Option AliasRow → Attached → Attached
  unfolding insert_alias
  attach_one r posting_id c none s = record s {
    aliases = s.aliases ++ insert_alias c posting_id s.aliases ∷ [];
  }
  attach_one r posting_id c (some a) s = if eq_str a.posting_id posting_id then s else record s {
    evidence = record_conflict posting_id (conflict_hash pf r posting_id a.posting_id c) s.evidence;
    conflicts = s.conflicts + 1;
  }

  -- A claim without an active alias becomes one; a claim of another posting is evidence.
  unfoldable pub attach : NormalizedPosting → Str → List IdentityClaim → Attached → Attached
  unfolding attach_one
  attach r posting_id [] s = s
  attach r posting_id (c ∷ cs) s =
      attach r posting_id cs (attach_one r posting_id c (active_alias s.aliases c) s)

  unfoldable pub new_alias_id : ℕ → Option AliasRow → Option Str
  new_alias_id n none = some (pf.new_uid n)
  new_alias_id n (some a) = none

  -- The alias that the first claim has, or is given now.
  unfoldable pub with_alias : IdentityClaim → List AliasRow → Identified → Identified
  unfolding new_alias_id
  with_alias c aliases i = record i {
    alias_id = coalesce i.alias_id (new_alias_id (length aliases) (active_alias aliases c));
  }

  unfoldable pub attached_to :
      NormalizedPosting
      → IdentityClaim
      → List IdentityClaim
      → Pass
      → Identified × List PostingRow
      → Pass × Option (NormalizedPosting × Identified)
  unfolding with_alias
  attached_to r c cs s found =
      let done =
        attach r found.0.posting_id (c ∷ cs)
          (record { aliases = s.aliases; evidence = s.evidence; conflicts = s.conflicts }) in
      (
        record {
          postings = found.1;
          aliases = done.aliases;
          evidence = done.evidence;
          conflicts = done.conflicts;
          created = s.created + (if found.0.first_seen_in_run then 1 else 0);
          skipped = s.skipped;
        },
        some (r, with_alias c s.aliases found.0),
      )

  unfoldable pub identify :
      NormalizedPosting → List IdentityClaim → Pass → Pass × Option (NormalizedPosting × Identified)
  unfolding attached_to
  identify r [] s = (record s { skipped = s.skipped + 1 }, none)
  identify r (c ∷ cs) s =
      attached_to r c cs s (resolve c (first_hit s.aliases (resolving (c ∷ cs))) s.postings)

  unfoldable pub identify_all :
      List NormalizedPosting → Pass → Pass × List (NormalizedPosting × Identified)
  identify_all [] s = (s, [])
  identify_all (r ∷ rs) s =
      let one = identify r (identity_claims pf r) s in
      let rest = identify_all rs one.0 in (rest.0, cons_some one.1 rest.1)
