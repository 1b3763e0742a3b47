-- ===== src/Records/Tables.antt =====
-- The tables that a batch of records reads and writes (webapp/backend/sources/runstore.py, and the
-- DDL of webapp/backend/migrations.py). A stored state is the dict that its JSON text reads as.
use jobhunt.Prelude.{
  ℕ, Bool, true, false, not, ◌&&◌, ◌||◌, Option, none, some, Str, List, [], ◌∷◌, ◌++◌, any, eq_str,
  if◌then◌else◌, is_some,
}
use jobhunt.Store.Presence.{AliasKind}
use jobhunt.Contract.Posting.{IdentityClaim, NormalizedPosting}

pub record PostingRow : Type 0 where
  pub posting_id : Str
  pub first_seen_at : Str
  pub created_at : Str

-- The confidence is in halves: 2 for a requisition, 1 for a URL.
pub record AliasRow : Type 0 where
  pub alias_id : Str
  pub posting_id : Str
  pub alias_kind : AliasKind
  pub namespace : Str
  pub value : Str
  pub url : Option Str
  pub req_id : Option Str
  pub confidence : ℕ
  pub valid_from : Str
  pub valid_to : Option Str

pub record EvidenceRow : Type 0 where
  pub evidence_id : Str
  pub posting_id : Str
  pub evidence_hash : Str
  pub first_observed_by : Str
  pub observed_at : Str

pub record VersionRow : Type 0 where
  pub posting_version_id : Str
  pub posting_id : Str
  pub alias_id : Option Str
  pub source_run_id : Str
  pub version_hash : Str
  pub observed_at : Str
  pub source : Str
  pub record_ : NormalizedPosting

-- A posting's content state: the version that each namespace last reported.
abbrev pub State : Type 0
State = List (Str × Str)

pub record MemberRow : Type 0 where
  pub run_uid : Str
  pub posting_id : Str
  pub posting_version_id : Option Str
  pub source_run_id : Option Str
  pub first_seen_in_run : Bool
  pub recorded_at : Str
  pub content_hash : Option Str
  pub source_state : Option State

pub record Tables : Type 0 where
  pub postings : List PostingRow
  pub aliases : List AliasRow
  pub evidence : List EvidenceRow
  pub versions : List VersionRow
  pub members : List MemberRow

-- `fetchone`.
abbrev pub first_where {ℓ} : {A : Type ℓ} → (A → Bool) → List A → Option A
first_where p [] = none
first_where p (x ∷ xs) = if p x then some x else first_where p xs

unfoldable pub eq_kind : AliasKind → AliasKind → Bool
eq_kind AliasKind.source_req AliasKind.source_req = true
eq_kind AliasKind.url AliasKind.url = true
eq_kind _ _ = false

unfoldable pub is_alias_of : IdentityClaim → AliasRow → Bool
unfolding eq_kind
is_alias_of c a =
    eq_kind a.alias_kind c.kind
    && (eq_str a.namespace c.namespace && (eq_str a.value c.value && not (is_some a.valid_to)))

unfoldable pub active_alias : List AliasRow → IdentityClaim → Option AliasRow
unfolding is_alias_of
active_alias aliases c = first_where (is_alias_of c) aliases

-- INSERT OR IGNORE: a row that a unique key meets makes the insert do nothing.
abbrev pub insert_or_ignore {ℓ} : {A : Type ℓ} → (A → Bool) → A → List A → List A
insert_or_ignore p x xs = if any p xs then xs else xs ++ x ∷ []

unfoldable pub is_posting : Str → PostingRow → Bool
is_posting posting_id r = eq_str r.posting_id posting_id

unfoldable pub is_evidence : Str → EvidenceRow → Bool
is_evidence hash r = eq_str r.evidence_hash hash

-- The primary key, and UNIQUE (posting_id, version_hash).
unfoldable pub is_version : Str → Str → Str → VersionRow → Bool
is_version version_id posting_id hash r =
    eq_str r.posting_version_id version_id
    || (eq_str r.posting_id posting_id && eq_str r.version_hash hash)

unfoldable pub is_member : Str → Str → MemberRow → Bool
is_member run_uid posting_id r = eq_str r.run_uid run_uid && eq_str r.posting_id posting_id
