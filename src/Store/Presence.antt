-- ===== src/Store/Presence.antt =====
-- The presence pass of a settled run (webapp/backend/sources/runstore.py).
use jobhunt.Prelude.{
  ℕ, ◌+◌, Bool, true, false, not, ◌&&◌, Option, none, some, Str, List, [], ◌∷◌, any, map, length,
  count_if, eq_str, if◌then◌else◌, is_some, le_list, nat_order,
}
use jobhunt.Store.Rows.{SourceRun, is_complete, update, put}
use jobhunt.Store.Queries.{SourceScope, successful_source_scopes}

-- The columns of `postings` that the pass reads or writes.
pub record Posting : Type 0 where
  pub posting_id : Str
  pub last_seen_at : Option Str
  pub last_seen_run_uid : Option Str
  pub absent_since : Option Str
  pub absent_run_uid : Option Str
  pub absent_source_run_id : Option Str
  pub returned_at : Option Str

pub data AliasKind : Type 0 where
  source_req url : AliasKind

unfoldable pub is_source_req : AliasKind → Bool
is_source_req source_req = true
is_source_req url = false

pub record Alias : Type 0 where
  pub posting_id : Str
  pub alias_kind : AliasKind
  pub namespace : Str
  pub valid_to : Option Str

pub record Membership : Type 0 where
  pub run_uid : Str
  pub posting_id : Str
  pub source_run_id : Str
  pub present : Bool
  pub recorded_at : Str

-- The tables that the pass only reads.
pub record Evidence : Type 0 where
  pub source_runs : List SourceRun
  pub aliases : List Alias
  pub run_postings : List Membership

-- _OWNED_BY_INSTANCE_SQL, _DELIVERED_BY_ATTEMPT_SQL and _SEEN_IN_RUN_SQL, as tests of an id.
unfoldable pub is_owned : List Alias → Str → Str → Bool
unfolding is_source_req
is_owned aliases source posting_id =
    any
      (λ a.
        is_source_req a.alias_kind
        && (eq_str a.namespace source
            && (not (is_some a.valid_to) && eq_str a.posting_id posting_id)))
      aliases

unfoldable pub is_delivered : List Membership → Str → Str → Str → Bool
is_delivered members run_uid source_run_id posting_id =
    any
      (λ m.
        eq_str m.run_uid run_uid
        && (eq_str m.source_run_id source_run_id && (m.present && eq_str m.posting_id posting_id)))
      members

-- A positive observation of a posting in a run.
unfoldable pub observes : Str → Str → Membership → Bool
observes run_uid posting_id m =
    eq_str m.run_uid run_uid && (m.present && eq_str m.posting_id posting_id)

unfoldable pub is_seen : List Membership → Str → Str → Bool
unfolding observes
is_seen members run_uid posting_id = any (observes run_uid posting_id) members

-- `SELECT MAX(recorded_at)`, NULL when no row is selected.
later : Str → Option Str → Option Str
later s none = some s
later s (some t) = some (if le_list nat_order s t then t else s)

unfoldable pub last_recorded : List Membership → Str → Str → Option Str
unfolding later observes
last_recorded [] run_uid posting_id = none
last_recorded (m ∷ ms) run_uid posting_id =
    let rest = last_recorded ms run_uid posting_id in
    if observes run_uid posting_id m then later m.recorded_at rest else rest

pub record Refreshed : Type 0 where
  pub seen : ℕ
  pub returned : ℕ

unfoldable pub refreshed : List Membership → Str → Str → Posting → Posting
unfolding last_recorded
refreshed members run_uid at p = record p {
  last_seen_at = last_recorded members run_uid p.posting_id;
  last_seen_run_uid = some run_uid;
  returned_at = if is_some p.absent_since then some at else p.returned_at;
  absent_since = none;
}

unfoldable pub refresh_presence :
    List Membership → Str → Str → List Posting → List Posting × Refreshed
unfolding refreshed
refresh_presence members run_uid at postings = (
  update (λ p. is_seen members run_uid p.posting_id) (refreshed members run_uid at) postings,
  record {
    seen = count_if (λ p. is_seen members run_uid p.posting_id) postings;
    returned =
        count_if (λ p. is_some p.absent_since && is_seen members run_uid p.posting_id) postings;
  },
)

pub record Marked : Type 0 where
  pub source : Str
  pub source_run_id : Str
  pub owned : ℕ
  pub inventory : ℕ
  pub marked_absent : ℕ
  pub retained_positively_observed : ℕ

-- The WHERE clause of the marking.
unfoldable pub is_lost : Evidence → Str → Str → Posting → Bool
unfolding is_owned is_seen
is_lost e run_uid source p =
    not (is_some p.absent_since)
    && (is_owned e.aliases source p.posting_id && not (is_seen e.run_postings run_uid p.posting_id))

unfoldable pub marked : Str → Str → Str → Posting → Posting
marked run_uid source_run_id at p = record p {
  absent_since = some at;
  absent_run_uid = some run_uid;
  absent_source_run_id = some source_run_id;
}

unfoldable pub mark_absent_for_scope :
    Evidence → Str → Str → Str → Str → List Posting → List Posting × Marked
unfolding is_lost marked is_delivered
mark_absent_for_scope e run_uid source source_run_id at postings = (
  update (is_lost e run_uid source) (marked run_uid source_run_id at) postings,
  record {
    source = source;
    source_run_id = source_run_id;
    owned =
        count_if
          (λ a.
            is_source_req a.alias_kind && (eq_str a.namespace source && not (is_some a.valid_to)))
          e.aliases;
    inventory =
        count_if
          (λ m. eq_str m.run_uid run_uid && (eq_str m.source_run_id source_run_id && m.present))
          e.run_postings;
    marked_absent = count_if (is_lost e run_uid source) postings;
    retained_positively_observed =
        count_if
          (λ p.
            not (is_some p.absent_since)
            && (is_owned e.aliases source p.posting_id
                && (not (is_delivered e.run_postings run_uid source_run_id p.posting_id)
                    && is_seen e.run_postings run_uid p.posting_id)))
          postings;
  },
)

-- `licensed[source] = scope`, for the scopes that are complete.
unfoldable pub license : List SourceScope → List (Str × SourceScope) → List (Str × SourceScope)
license [] licensed = licensed
license (s ∷ scopes) licensed =
    license scopes (if is_complete s.inventory_scope then put s.source s licensed else licensed)

unfoldable pub licensed_scopes : Evidence → Str → List SourceScope
unfolding license
licensed_scopes e run_uid =
    map (λ ks. ks.1) (license (successful_source_scopes e.source_runs run_uid) [])

pub record PresenceReport : Type 0 where
  pub seen : ℕ
  pub returned : ℕ
  pub licensed_sources : ℕ
  pub marked_absent : ℕ
  pub retained_positively_observed : ℕ
  pub sources : List Marked

sum_of : (Marked → ℕ) → List Marked → ℕ
sum_of f [] = 0
sum_of f (m ∷ ms) = f m + sum_of f ms

unfoldable pub mark_all :
    Evidence → Str → Str → List SourceScope → List Posting → List Posting × List Marked
unfolding mark_absent_for_scope
mark_all e run_uid at [] postings = (postings, [])
mark_all e run_uid at (s ∷ scopes) postings =
    let (next, report) = mark_absent_for_scope e run_uid s.source s.source_run_id at postings in
    let (final, reports) = mark_all e run_uid at scopes next in (final, report ∷ reports)

unfoldable pub apply_run_presence :
    Evidence → Str → Str → List Posting → List Posting × PresenceReport
unfolding refresh_presence mark_all licensed_scopes sum_of
apply_run_presence e run_uid at postings =
    let (current, refresh) = refresh_presence e.run_postings run_uid at postings in
    let (final, sources) = mark_all e run_uid at (licensed_scopes e run_uid) current in
    (
      final,
      record {
        seen = refresh.seen;
        returned = refresh.returned;
        licensed_sources = length sources;
        marked_absent = sum_of (λ m. m.marked_absent) sources;
        retained_positively_observed = sum_of (λ m. m.retained_positively_observed) sources;
        sources = sources;
      },
    )
