-- ===== src/Lib.antt =====
-- The core of the job hunt's backend: the queue of today, and the store, the scheduler, the
-- transport and the writer of its source runs.
--
-- The parts and their files:
--
-- * Queue models webapp/backend/ranking.py over the job records of webapp/backend/models.py.
--   Queue/Job has the records and the policy, Queue/Freshness the dates and ages
--   (_parse_date, freshness_of), Queue/Eligibility the checks and flags (_ineligibility,
--   _uncertainty_flags, _company_key, the rank tables), Queue/Lanes the gate and the two sorted
--   lanes, Queue/Compose the rest of build_queue: try_push, the interleaving, the overflow. The
--   proofs are in Admitted, Counts, Loop, Accounting, Caps, Justify and Invariance.
-- * Store models webapp/backend/sources/runstore.py. A table is a list of rows in the order of
--   their inserts, an UPDATE with a WHERE clause is `update`, and a refused insert is `none`.
--   Store/Rows has the rows, Store/Attempts the life of an attempt (create_source_run,
--   record_unattempted_source_run, update_source_run_progress, finish_source_run),
--   Store/Recovery the restart (recover_orphans, reopen_pipeline_run, finish_pipeline_run),
--   Store/Queries what is read back (successful_source_scopes, max_attempt_by_source,
--   latest_checkpoint_json, resume_plan), Store/Presence the presence pass (refresh_presence,
--   mark_absent_for_scope, apply_run_presence). The proofs are in History, Numbering,
--   Unattempted, Reconcile, Candidates, Pass and Absence.
-- * Runs models the scheduling of one run. Runs/Target has what is read of
--   webapp/backend/sources/contract.py, Runs/Profile models webapp/backend/sources/run_profiles.py,
--   Runs/Loop and Runs/Execute webapp/backend/sources/scheduler.py (_attempt_loop, the endings of
--   _run_attempt, _run_target, the loop over the plan in _execute and the run's status,
--   _settle_presence, _run_report), Runs/Limits the ceilings of the hosts (_build_gates,
--   _build_transports), Runs/Preflight what a run learns from the store (_preflight, without the
--   checkpoints), Runs/Pacing the slots of PacedTransport in webapp/backend/sources/transport.py.
--   Runs/Resume puts the inserts of the attempts one after another. Runs/Gates is _hold as a step
--   relation: the targets pass the gates in any interleaving, and leave them at their end or by an
--   exception. The proofs are in Dueness, Retries, Resume, Report, Skips, Politeness, Spacing,
--   Holding, Phases and Progress, over Lookup, which reads an association list after a write.
-- * Writer models the transactions of webapp/backend/sources/writer.py: _commit_once,
--   _commit_locked, _loop and _drain_and_drop. The proofs are in Counters, Sequences
--   and Ledger.
-- * Contract models the records of webapp/backend/sources/contract.py: Contract/Text the
--   normalization of texts, dates and URLs, Contract/Posting the NormalizedPosting with its
--   namespace, hash input and identity claims, Contract/Wire the JSON form of a record and
--   Contract/Checkpoint that of a Checkpoint. The proofs are in Spaces, Dates, Normal, Roundtrip and
--   Resumption.
-- * Records models write_records of webapp/backend/sources/runstore.py. Records/Tables has the
--   tables and their keys, Records/Identity the first pass (the posting of each record),
--   Records/Content the second (content states, versions, run membership) and the whole function.
--   The proofs are in Growth, Decides, Replay, Members and Deliveries, and for whole batches in
--   Counts, Batches, Repeats, Unique and States.
-- * Resolver models webapp/backend/sources/resolver.py: Resolver/Names the pure normalizers,
--   Resolver/Local the index and resolve_local, Resolver/Survivor choose_survivor,
--   Resolver/Redirects record_redirect, emit_invalidation and resolve_aggregators. The proofs are in
--   Index, Sets, Survivor, Merging and Sound.
-- * Graph models two decisions of webapp/backend/sources/graph.py: Graph/Canonical the mode of a
--   scoring pass and the version that speaks for a posting; Graph/Merged has the proofs.
-- * Scoring models rubric.py, the part of candidate_profile.py that it reads, and
--   webapp/backend/sources/scoring.py. Scoring/Vector has the contract of a feature vector,
--   Scoring/Profile the profile, Scoring/Texts years_required, posting_age_days and
--   salary_from_desc, Scoring/Reading the local values of _score_row_core, Scoring/Rules its rules,
--   Scoring/Rubric its refusals and caps and reconstruct_tier, Scoring/Odds _hireability_core,
--   Scoring/Validate validate_features and _score_one, Scoring/Persist persist_scores. The proofs
--   are in Balance, Replay, Limits, Accepted, Fates, Replaced, Marks, Wrote and Written.
-- * Enrichment models webapp/backend/sources/enrichment.py: Enrichment/Prefilter the prefilter over
--   the profile that it probes, Enrichment/Pass the accounts of enrich_run.
-- * Service models webapp/backend/runservice.py: Service/Supervise the supervisor of a run as a machine
--   whose phases are its awaits (_supervise, the stages, _append_event, _deliver_cancel), with the
--   replies chosen by the environment; Service/Active the table of active runs and the requests on it
--   (_check_conflicts, parse_kind, start_run, retry_source, cancel_run). The proofs are in Kind,
--   Honoured, Told, Settles and Lanes.
-- * Prelude has the shared lists, texts, orders, integers and the stable sort.
--
-- How they interact: the scheduler numbers its attempts past what Store/Queries reports, its writer
-- commits the operations of Store/Attempts, and after the drain it lets Store/Presence decide which
-- postings are gone. The run service starts the scheduler's run and, when
-- the fetch is over, the passes of Enrichment and Scoring. The queue reads jobs and no run.
--
-- Texts are lists of code points. Times and durations are natural numbers of ticks where the source
-- has floats, and an age is cut off at 0 as the source does it. What Python or SQLite provide is a
-- parameter: case folding and dates in the queue, instants in the dueness filter, the clock, the
-- jitter and the streams of the adapters in the attempt loop, the faults of BEGIN, COMMIT and an
-- operation in the writer, the regular expressions and the digests of the scorer. A compiled
-- pattern is the function that tells whether it is found, and an amount of money is a whole number
-- where the scorer has floats.
--
-- Bounds: no definition needs fuel that the source does not have. The interleaving runs over the
-- longer lane, the attempt loop over `max_attempts`, the retry of a transaction over its two tries;
-- all else recurs on its lists.
--
-- Not modelled: the foreign keys of the tables, but for those of the stored scores, which are on
-- file in Scoring/Persist; the change accounting and the
-- freshness report of the run store; the checkpoints of a resume and the batching of the
-- scheduler, and a cancel of the run's own task from outside; the queue, the
-- submission and the closing of the writer; the semaphores of the transport; the validation of
-- targets and descriptors and the fetch contexts of the contract; the bridge of legacy URLs and the
-- consumption of invalidations in the resolver; the recorded passes and work lists of the graph; the
-- event stream and the reads of the run service, and the registry's plans; the fetches of the enrichment. The adapters, the web
-- API, the migrations' steps, the statistics over outcomes and the command line scripts are I/O, SQL
-- text or floating point.
pub mod Prelude
pub mod Queue
pub mod Store
pub mod Runs
pub mod Writer
pub mod Contract
pub mod Records
pub mod Resolver
pub mod Graph
pub mod Scoring
pub mod Enrichment
pub mod Service
