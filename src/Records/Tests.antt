-- ===== src/Records/Tests.antt =====
-- A board's record and an aggregator's, and the theorems at them.
use jobhunt.Prelude.{
  ◌≤◌, ◌≡◌, refl, true, false, none, some, Str, codes, List, [], ◌∷◌, ◌++◌, arith, All, length,
  count_if, eq_str,
}
use jobhunt.Store.Presence.{AliasKind}
use jobhunt.Contract.Text.{Platform}
use jobhunt.Contract.Posting.{NormalizedPosting, IdentityClaim, identity_claims, namespace_of}
use jobhunt.Records.Tables.{Tables, AliasRow, active_alias, is_alias_of, is_member, eq_kind}
use jobhunt.Records.Identity.{Delivery, Identified}
use jobhunt.Records.Content.{Runs, Content, RecordOutcome, write_records, deliver}
use jobhunt.Records.Counts.{IsAccounted, write_records_accounts}
use jobhunt.Records.Batches.{write_records-InRun, InRun}
use jobhunt.Records.Repeats.{replay_adds_nothing}
use jobhunt.Records.Unique.{write_records_unique}
use jobhunt.Records.States.{entry, deliver-order}

abbrev join : List Str → Str
join [] = []
join (s ∷ ss) = s ++ 44 ∷ join ss

abbrev pair_text : List (Str × Str) → Str
pair_text [] = []
pair_text ((k, v) ∷ m) = k ++ 61 ∷ (v ++ 44 ∷ pair_text m)

-- A platform that hashes by writing out, and splits no URL.
abbrev platform : Platform
platform = record {
  nfkc = λ s. s;
  lower = λ s. s;
  digit_of = λ c. none;
  urlsplit = λ s. record { scheme = []; hostname = none; port = none; path = s; query = [] };
  parse_qsl = λ s. [];
  urlencode = pair_text;
  urlunsplit = λ scheme host path query. path;
  str_of_nat = λ n. n ∷ [];
  sha256 = λ s. s;
  sha256_json = pair_text;
  uuid5 = λ ns parts. ns ++ join parts;
  new_uid = λ n. n ∷ [];
}

abbrev board : NormalizedPosting
board = record {
  source_key = codes "gh";
  title = codes "Engineer";
  company = codes "Acme";
  url = codes "acme/1";
  instance_key = codes "acme";
  location = [];
  req_id = some (codes "1");
  posted_date = none;
  posted_raw = [];
  salary_text = [];
  remote = false;
  description = none;
  alt_urls = [];
  extra = [];
}

abbrev mirror : NormalizedPosting
mirror = record board { source_key = codes "agg"; instance_key = []; req_id = none }

abbrev delivery : Delivery
delivery = record { run_uid = codes "run"; source_run_id = codes "s1"; recorded_at = codes "12:00" }

abbrev retry : Delivery
retry = record delivery { source_run_id = codes "s2" }

abbrev empty : Tables
empty = record { postings = []; aliases = []; evidence = []; versions = []; members = [] }

abbrev runs : Runs
runs = record { source_runs = []; pipeline_runs = [] }

abbrev records : List NormalizedPosting
records = board ∷ mirror ∷ board ∷ []

-- The aggregator's record meets the board's URL, so all three are of one posting.
abbrev written : Tables
written = (write_records platform runs delivery records empty).0

-- The board's record mints the posting; the two others are re-deliveries of it.
abbrev outcome : RecordOutcome
outcome = (write_records platform runs delivery records empty).1

write_records_accounts_example :
    IsAccounted records empty (write_records platform runs delivery records empty)
write_records_accounts_example = write_records_accounts platform runs delivery records empty

abbrev url_claim : IdentityClaim
url_claim = record {
  kind = AliasKind.url;
  namespace = codes "url";
  value = codes "acme/1";
  rank = 1;
  url = some (codes "acme/1");
  req_id = none;
}

-- An alias of the board's URL that names a posting of long ago.
abbrev old_alias : AliasRow
old_alias = record {
  alias_id = codes "a";
  posting_id = codes "old";
  alias_kind = AliasKind.url;
  namespace = codes "url";
  value = codes "acme/1";
  url = some (codes "acme/1");
  req_id = none;
  confidence = 1;
  valid_from = codes "11:00";
  valid_to = none;
}

abbrev before : Tables
before = record empty { aliases = old_alias ∷ [] }

found : active_alias before.aliases url_claim ≡ some old_alias
unfolding active_alias is_alias_of eq_kind eq_str
found = refl

write_records-InRun_example :
    All (λ r. InRun (codes "run") written (identity_claims platform r)) records
write_records-InRun_example = write_records-InRun platform runs delivery records empty

write_records_unique_example :
    (count_if
        (is_member (codes "run") (codes "old"))
        (write_records platform runs delivery records before).0.members
      ≤ 1)
    × (count_if
          (is_alias_of url_claim)
          (write_records platform runs delivery records before).0.aliases
        ≤ 1)
unfolding is_alias_of eq_kind eq_str
write_records_unique_example =
    write_records_unique platform runs delivery records before (codes "run") (codes "old") url_claim
      (omega arith) (omega arith)

replay_adds_nothing_example :
    ((write_records platform runs retry records written).1.accepted ≡ 0)
    × ((write_records platform runs retry records written).1.created ≡ 0)
    × ((write_records platform runs retry records written).0.postings ≡ written.postings)
    × ((write_records platform runs retry records written).0.aliases ≡ written.aliases)
    × (length (write_records platform runs retry records written).0.members
        ≡ length written.members)
replay_adds_nothing_example = replay_adds_nothing platform runs delivery retry records empty refl

abbrev of_board : NormalizedPosting × Identified
of_board = (board, record { posting_id = codes "p"; alias_id = none; first_seen_in_run = true })

abbrev of_mirror : NormalizedPosting × Identified
of_mirror = (mirror, record { posting_id = codes "p"; alias_id = none; first_seen_in_run = false })

abbrev nothing : Content
nothing = record {
  versions = [];
  members = [];
  states = [];
  accepted = 0;
  duplicates = 0;
  changed = [];
}

deliver-order_example :
    entry
      (deliver platform runs delivery of_mirror (deliver platform runs delivery of_board nothing))
      (codes "p")
      (codes "agg")
    ≡ entry
        (deliver platform runs delivery of_board (deliver platform runs delivery of_mirror nothing))
        (codes "p")
        (codes "agg")
unfolding namespace_of eq_str
deliver-order_example =
    deliver-order platform runs delivery of_board of_mirror nothing (codes "p") (codes "agg") refl
