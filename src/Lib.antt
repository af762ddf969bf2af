-- ===== src/Lib.antt =====
-- The annotation tool for Egyptian Arabic recordings: annotators sign in, take a task of one
-- recording, correct the text and times of its segments, and a second annotator's version of the
-- same recording is compared with the first, word by word. This library models the parts of the
-- Python program that decide something, and proves what they promise.
--
-- Base: tests on numbers, lists, results that are returned or raised, counted loops, a stable sort,
--   and float arithmetic on seconds (Doubles).
-- Comparison: annotation_quality/comparison.py. Types has the dataclasses; Tokens has
--   _nfd_with_sources, _nfc_with_raw_spans and _tokenize_segment (Words and Spans prove what the
--   tokens are); Align has _word_alignment (Spec is the independent distance, Table the filled table,
--   Walk the walk back, Optimal the results); BadQuality has _bad_quality_union and
--   _bad_quality_conflict; Compare has _parse_segments and compare_transcripts, which joins them all
--   into a verdict. Unicode is the interface of Python's Unicode tables, Ascii an instance of it.
-- Processing: annotation_metadata/processing.py, the lease on a task while it is preprocessed.
--   Outcomes is about single calls, Fencing about any sequence of calls of any workers.
-- Segments: the part of annotation_repository.py that reads, merges, saves and checks the edited
--   segments of a draft (_parse_dirty_segment, _apply_dirty_segments, _merge_dirty_segments,
--   _validate_segment_timeline, _validate_version_segments).
-- Sessions: the part of annotation_repository.py on sessions. State has the tables, ensure_user,
--   _lock_active_annotator and _replace_active_session; Fence has _require_session_fence,
--   _touch_real_activity, inspect_session, validate_session and load_session_fence; Login has
--   login_or_resume, force_takeover and logout; Heartbeat has session_heartbeat. Guards, Branches,
--   Presence and Activity are about single calls, Moves and Lifetime about any sequence of calls.
-- Drafts: the part of annotation_repository.py on an assigned task. State has the tables,
--   _operation_replay, _store_operation, _lock_assignment and _require_open_cross_check_round; Save
--   has save_draft, Abandon has abandon, Complete and Publish have complete and
--   snapshot_annotation_duration of annotation_duration.py, all built on Sessions and Segments. Once
--   is about a request that is sent twice, Conflicts, Release, Published and Publication about what
--   the calls leave.
-- CrossCheck: the second annotation of a published task and its rounds, on top of Drafts, Sessions and
--   Comparison. Claim has the candidates of annotation_quality/claiming.py, Draw their draw and
--   create_cross_check_claim of annotation_quality/repository.py. Inputs, Submit and Commit have
--   submit_cross_check of annotation_quality/service.py: the digest of what is compared, the
--   transaction that reads it, the comparison, and the transaction that freezes the version. Admin has
--   _begin_admin_action and _finish_admin_action of annotation_repository.py and the settings; Rounds
--   the single updates of annotation_quality/repository.py; Decide and Adjudicate decide_cross_check;
--   Cancel has cancel_cross_check and invalidate_open_cross_check_for_task. Lifecycle joins these
--   transactions, and abandon and complete of Drafts, in one step relation on all the tables and has
--   what holds in any order of them; Returns says when a round can be cancelled. Scenario is test data.
-- Claims: claim of annotation_repository.py and claim_lock_query, fetch_claim_candidate and
--   candidate_exists_sql of annotation_metadata/claiming.py: a reserved task, one of the normal pool, or
--   one of CrossCheck. Assigned is about what a claim leaves.
-- Taxonomy: annotation_metadata/taxonomy.py, the ten scenes and their names. Scenes is about what a name
--   resolves to, Labels about the labels of a review, Ordered about the catalog's order.
--
-- A function that works in a transaction takes the tables and the transaction's time, now(), and
-- returns a result with the tables after it; an exception rolls back (commit, which is db_tx of
-- db.py). Sequences of calls are step relations whose steps are such transactions, in any order and
-- at any times. The heartbeat takes one database for each of its transactions, so that other calls
-- may come between them. submit_cross_check is three transactions, too: _commit_cross_check_submit may
-- find other tables than _load_submit_snapshot, and what is proved of it holds for any two. A claim is
-- one step: what other transactions have locked is an argument of each of its attempts.
--
-- Bounds: the walk of _word_alignment gets one unit of fuel more than the tokens of both texts, and
-- each round takes one token away; that it suffices is part of what is proved of it. The other loops
-- run over lists. Cells of array('I') and database integers are natural numbers. Times are given in
-- whole microseconds (seconds in the sessions and leases, where only their order counts). Where Python
-- computes with them as floats (the tests of the timeline, the duration of a segment, _to_ms), the model
-- takes the doubles nearest to these decimals and rounds each result to 53 bits as Python does, so that
-- it decides as the code does at the edge of the tolerance, too; the 256 steps in which the spare bits are
-- counted are enough for seconds below 2 ^ 100. The sum of the durations of a draft, a SQL sum, is exact
-- in the model. Ids, tokens and names are
-- numbers; that uuid4 gives new ones is a hypothesis where it is used. Unicode tables, the memory
-- that a table may take, the SHA-256 of a session id, of a request and of the compared inputs, the draw
-- of randrange and whether a task has a source that a user's scope and filters allow are parameters. A
-- claim has eight attempts at a cross-check and 64 at the normal pool, as in the code, and may end with
-- none of them granted.
--
-- Not modelled: the HTTP server, the pages, SQL that only reads for display, exports, backups, the
-- speech tools and the scripts, which are input and output; reopening, scene reviews
-- sent with a request, the lists of rounds, the JSON that a stored comparison is laid out in,
-- the labels that are only displayed, and the storage of the metadata.
pub mod Base
pub mod Comparison
pub mod Processing
pub mod Segments
pub mod Sessions
pub mod Drafts
pub mod CrossCheck
pub mod Claims
pub mod Taxonomy
