-- ===== src/Resolver/Tests.antt =====
-- A board's posting and its mirror, and the theorems at them.
use jobhunt.Prelude.{◌≡◌, refl, true, none, some, Str, codes, List, [], ◌∷◌, ◌++◌, keep, arith}
use jobhunt.Contract.Text.{Platform}
use jobhunt.Resolver.Local.{Observation, Subject, build_direct_index, resolve_local, only}
use jobhunt.Resolver.Index.{is_match, resolve_local-search}
use jobhunt.Resolver.Survivor.{Corpus}
use jobhunt.Resolver.Redirects.{Merges, Pass, resolve_aggregators}
use jobhunt.Resolver.Merging.{Grown, SameAgain, later, nothing_yet, resolve_aggregators_idem}
use jobhunt.Resolver.Sound.{IsFunctional, resolve_aggregators-IsFunctional}

abbrev join : List Str → Str
join [] = []
join (s ∷ ss) = s ++ 44 ∷ join ss

abbrev platform : Platform
platform = record {
  nfkc = λ s. s;
  lower = λ s. s;
  digit_of = λ c. none;
  urlsplit = λ s. record { scheme = []; hostname = none; port = none; path = s; query = [] };
  parse_qsl = λ s. [];
  urlencode = λ m. [];
  urlunsplit = λ scheme host path query. path;
  str_of_nat = λ n. n ∷ [];
  sha256 = λ s. s;
  sha256_json = λ m. [];
  uuid5 = λ ns parts. ns ++ join parts;
  new_uid = λ n. n ∷ [];
}

abbrev board : Observation
board = record {
  posting_id = codes "p";
  namespace = codes "gh:acme";
  company = codes "acme inc";
  title = codes "support engineer";
  location = codes "berlin";
}

abbrev other : Observation
other = record board { posting_id = codes "q"; title = codes "cook" }

abbrev observations : List Observation
observations = board ∷ other ∷ []

abbrev mirror : Subject
mirror = record {
  posting_id = codes "m";
  company = some (codes "acme");
  title = some (codes "support engineer");
  location = none;
}

abbrev pass : Pass
pass = record { is_direct = λ ns. true; run_uid = codes "run"; at = codes "12:00" }

abbrev unmerged : Merges
unmerged = record { redirects = []; evidence = []; invalidations = [] }

-- The mirror redirects to the board's posting.
abbrev merged : Merges
merged =
    (resolve_aggregators platform pass [] (build_direct_index platform observations) (mirror ∷ [])
      unmerged).0

resolve_local-search_example :
    resolve_local platform mirror (build_direct_index platform observations) ≡ record {
      subject_posting_id = codes "m";
      matched = only (keep (is_match platform mirror) observations);
      candidates = keep (is_match platform mirror) observations;
    }
resolve_local-search_example = resolve_local-search platform mirror observations

-- The same run at another time.
resolve_aggregators_idem_example :
    SameAgain platform pass pass.run_uid
      (codes "later")
      (merged, nothing_yet)
      (resolve_aggregators platform
        (later platform pass pass.run_uid (codes "later"))
        []
        (build_direct_index platform observations)
        (mirror ∷ [])
        merged)
    × Grown unmerged merged
resolve_aggregators_idem_example =
    resolve_aggregators_idem platform pass pass.run_uid (codes "later") []
      (build_direct_index platform observations) (mirror ∷ []) unmerged

resolve_aggregators-IsFunctional_example : IsFunctional (codes "m") merged.redirects
resolve_aggregators-IsFunctional_example =
    resolve_aggregators-IsFunctional platform pass (codes "m") []
      (build_direct_index platform observations) (mirror ∷ []) unmerged (omega arith, refl)

abbrev corpus : Corpus
corpus = record {
  postings =
      record { posting_id = codes "p"; first_seen_at = codes "2"; created_at = codes "2" }
      ∷ record { posting_id = codes "q"; first_seen_at = codes "1"; created_at = codes "1" }
      ∷ [];
  aliases = [];
}
