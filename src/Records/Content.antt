-- ===== src/Records/Content.antt =====
-- The second pass of `write_records`: content states, versions and run membership, and the whole
-- function (webapp/backend/sources/runstore.py).
use jobhunt.Prelude.{
  ℕ, ◌+◌, Bool, false, not, ◌&&◌, ◌||◌, Option, none, some, Str, codes, List, [], ◌∷◌, ◌++◌, any,
  eq_str, if◌then◌else◌, length, mem, or_else, le_list, list_order, nat_order,
}
use jobhunt.Store.Rows.{SourceRun, PipelineRun, put, update}
use jobhunt.Store.Attempts.{same_id}
use jobhunt.Runs.Profile.{find}
use jobhunt.Contract.Text.{Platform}
use jobhunt.Contract.Posting.{NormalizedPosting, namespace_of, content_hash}
use jobhunt.Records.Tables.{
  VersionRow, MemberRow, State, Tables, is_version, is_member, insert_or_ignore, first_where,
}
use jobhunt.Records.Identity.{Delivery, Identified, Pass, identify_all}

-- Batches of one kind of row are read with the run and the attempt tables beside them.
pub record Runs : Type 0 where
  pub source_runs : List SourceRun
  pub pipeline_runs : List PipelineRun

requested_at : Str → List PipelineRun → Option Str
requested_at run_uid [] = none
requested_at run_uid (r ∷ rs) =
    if eq_str r.run_uid run_uid then some r.requested_at else requested_at run_uid rs

-- The sort key of a recorded state; no state, or no run to join, is no row.
stamped : MemberRow → Option Str → Option State → Option (List Str × State)
stamped m (some at) (some state) = some (at ∷ m.recorded_at ∷ m.run_uid ∷ [], state)
stamped m (some at) none = none
stamped m none state = none

newer : Option (List Str × State) → Option (List Str × State) → Option (List Str × State)
newer none b = b
newer (some a) none = some a
newer (some a) (some b) = if le_list (list_order nat_order) b.0 a.0 then some a else some b

-- _CURRENT_STATE_SQL: the state of the latest run, then of the latest recording.
unfoldable pub latest_state : Runs → Str → List MemberRow → Option (List Str × State)
unfolding requested_at stamped newer
latest_state runs posting_id [] = none
latest_state runs posting_id (m ∷ ms) =
    let rest = latest_state runs posting_id ms in
    if eq_str m.posting_id posting_id
    then newer (stamped m (requested_at m.run_uid runs.pipeline_runs) m.source_state) rest
    else rest

cons_state : Str → Option (List Str × State) → List (Str × State) → List (Str × State)
cons_state id none states = states
cons_state id (some s) states = (id, s.1) ∷ states

-- The dict of the states of these postings; its order is of no effect, nor are the chunks.
unfoldable pub current_states : Runs → List MemberRow → List Str → List (Str × State)
unfolding latest_state cons_state
current_states runs members [] = []
current_states runs members (id ∷ ids) =
    cons_state id (latest_state runs id members) (current_states runs members ids)

source_of : Option SourceRun → Option Str
source_of none = none
source_of (some r) = some r.source

unfoldable pub source_of_attempt : List SourceRun → Str → Option Str
unfolding source_of
source_of_attempt rows source_run_id = source_of (first_where (same_id source_run_id) rows)

is_attempt : Option Str → Str → Bool
is_attempt none id = false
is_attempt (some a) id = eq_str a id

is_of_source : List SourceRun → Str → Str → Option Str → Bool
is_of_source rows run_uid source none = false
is_of_source rows run_uid source (some id) =
    any (λ r. eq_str r.source_run_id id && (eq_str r.run_uid run_uid && eq_str r.source source))
      rows

-- Only a row that another attempt of the same source wrote in this run moves.
unfoldable pub is_moved : List SourceRun → Delivery → Str → Str → MemberRow → Bool
unfolding is_attempt is_of_source
is_moved rows d posting_id source m =
    is_member d.run_uid posting_id m
    && (not (is_attempt m.source_run_id d.source_run_id)
        && is_of_source rows d.run_uid source m.source_run_id)

unfoldable pub attributed : Delivery → MemberRow → MemberRow
attributed d m = record m { source_run_id = some d.source_run_id }

unfoldable pub reattribute_membership :
    List SourceRun → Delivery → Str → Option Str → List MemberRow → List MemberRow
reattribute_membership rows d posting_id none members = members
reattribute_membership rows d posting_id (some source) members =
    update (is_moved rows d posting_id source) (attributed d) members

-- `state.get(namespace) == version_id`.
unfoldable pub is_current : Option Str → Str → Bool
is_current none version_id = false
is_current (some v) version_id = eq_str v version_id

-- The state after a record: its own namespace names its version.
unfoldable pub moved_state : State → Str → Str → State
unfolding is_current
moved_state state namespace version_id =
    if is_current (find namespace state) version_id then state else put namespace version_id state

pub record Content : Type 0 where
  pub versions : List VersionRow
  pub members : List MemberRow
  pub states : List (Str × State)
  pub accepted : ℕ
  pub duplicates : ℕ
  pub changed : List Str

pub record RecordOutcome : Type 0 where
  pub received : ℕ
  pub accepted : ℕ
  pub created : ℕ
  pub duplicates : ℕ
  pub skipped : ℕ
  pub conflicts : ℕ
  pub changed : ℕ

unfoldable pub merge : RecordOutcome → RecordOutcome → RecordOutcome
merge a b = record {
  received = a.received + b.received;
  accepted = a.accepted + b.accepted;
  created = a.created + b.created;
  duplicates = a.duplicates + b.duplicates;
  skipped = a.skipped + b.skipped;
  conflicts = a.conflicts + b.conflicts;
  changed = a.changed + b.changed;
}

abbrev add_once : Str → List Str → List Str
add_once u us = if mem u us then us else u ∷ us

unfoldable pub start : Tables → Pass
start t = record {
  postings = t.postings;
  aliases = t.aliases;
  evidence = t.evidence;
  conflicts = 0;
  created = 0;
  skipped = 0;
}

unfoldable pub finished : ℕ → Pass → Content → Tables × RecordOutcome
finished received one two = (
  record {
    postings = one.postings;
    aliases = one.aliases;
    evidence = one.evidence;
    versions = two.versions;
    members = two.members;
  },
  record {
    received = received;
    accepted = two.accepted;
    created = one.created;
    duplicates = two.duplicates;
    skipped = one.skipped;
    conflicts = one.conflicts;
    changed = length two.changed;
  },
)

-- minted_here, and the other postings of the batch.
unfoldable pub minted_ids : List (NormalizedPosting × Identified) → List Str
minted_ids [] = []
minted_ids ((r, i) ∷ xs) =
    let rest = minted_ids xs in if i.first_seen_in_run then i.posting_id ∷ rest else rest

unfoldable pub known_ids : List Str → List (NormalizedPosting × Identified) → List Str
known_ids minted [] = []
known_ids minted ((r, i) ∷ xs) =
    let rest = known_ids minted xs in
    if mem i.posting_id minted || mem i.posting_id rest then rest else i.posting_id ∷ rest

module _ (pf : Platform) (runs : Runs) (d : Delivery) where
  unfoldable pub posting_version_id_for : Str → Str → Str
  posting_version_id_for posting_id hash = pf.uuid5 (codes "version") (posting_id ∷ hash ∷ [])

  unfoldable pub version_row : NormalizedPosting → Identified → Str → VersionRow
  version_row r i version_id = record {
    posting_version_id = version_id;
    posting_id = i.posting_id;
    alias_id = i.alias_id;
    source_run_id = d.source_run_id;
    version_hash = content_hash pf r;
    observed_at = d.recorded_at;
    source = namespace_of r;
    record_ = r;
  }

  unfoldable pub link_source_version :
      NormalizedPosting → Identified → Str → List VersionRow → List VersionRow
  unfolding version_row
  link_source_version r i version_id versions =
      insert_or_ignore (is_version version_id i.posting_id (content_hash pf r))
        (version_row r i version_id) versions

  unfoldable pub member_row : Identified → Str → Str → State → MemberRow
  member_row i version_id hash state = record {
    run_uid = d.run_uid;
    posting_id = i.posting_id;
    posting_version_id = some version_id;
    source_run_id = some d.source_run_id;
    first_seen_in_run = i.first_seen_in_run;
    recorded_at = d.recorded_at;
    content_hash = some hash;
    source_state = some state;
  }

  unfoldable pub described : Str → Str → State → MemberRow → MemberRow
  described version_id hash state m = record m {
    posting_version_id = some version_id;
    content_hash = some hash;
    source_state = some state;
    recorded_at = d.recorded_at;
  }

  unfoldable pub redeliver : Identified → Str → Str → State → List MemberRow → List MemberRow
  unfolding described
  redeliver i version_id hash state members =
      update (is_member d.run_uid i.posting_id) (described version_id hash state) (
        reattribute_membership runs.source_runs d i.posting_id
          (source_of_attempt runs.source_runs d.source_run_id) members)

  -- The row of a record that is the first of its posting in the run, or a re-delivery.
  unfoldable pub record_member : Identified → Str → Str → State → Content → Content
  unfolding member_row
  record_member i version_id hash state s =
      if any (is_member d.run_uid i.posting_id) s.members
      then record s {
        members = redeliver i version_id hash state s.members;
        duplicates = s.duplicates + 1;
      }
      else record s {
        members = s.members ++ member_row i version_id hash state ∷ [];
        accepted = s.accepted + 1;
      }

  unfoldable pub link_if_moved : NormalizedPosting → Identified → Str → State → Content → Content
  link_if_moved r i version_id state s =
      if is_current (find (namespace_of r) state) version_id then s else record s {
        versions = link_source_version r i version_id s.versions;
        changed = add_once i.posting_id s.changed;
      }

  unfoldable pub version_of : NormalizedPosting → Identified → Str
  version_of r i = posting_version_id_for i.posting_id (content_hash pf r)

  abbrev pub state_before : Identified → Content → State
  state_before i s = or_else (find i.posting_id s.states) []

  unfoldable pub state_after : NormalizedPosting → Identified → Content → State
  unfolding version_of
  state_after r i s = moved_state (state_before i s) (namespace_of r) (version_of r i)

  unfoldable pub linked : NormalizedPosting → Identified → Content → Content
  unfolding link_if_moved
  linked r i s = record (link_if_moved r i (version_of r i) (state_before i s) s) {
    states = put i.posting_id (state_after r i s) s.states;
  }

  unfoldable pub deliver : NormalizedPosting × Identified → Content → Content
  unfolding record_member
  deliver (r, i) s =
      record_member i (version_of r i) (content_hash pf r) (state_after r i s) (linked r i s)

  unfoldable pub deliver_all : List (NormalizedPosting × Identified) → Content → Content
  unfolding deliver
  deliver_all [] s = s
  deliver_all (x ∷ xs) s = deliver_all xs (deliver x s)

  unfoldable pub content_of : Tables → List (NormalizedPosting × Identified) → Content
  unfolding known_ids minted_ids deliver_all
  content_of t resolved = deliver_all resolved (record {
    versions = t.versions;
    members = t.members;
    states = current_states runs t.members (known_ids (minted_ids resolved) resolved);
    accepted = 0;
    duplicates = 0;
    changed = [];
  })

  unfoldable pub write_records : List NormalizedPosting → Tables → Tables × RecordOutcome
  unfolding start content_of finished
  write_records records t =
      let one = identify_all pf d records (start t) in
      finished (length records) one.0 (content_of t one.1)
