-- ===== src/Lib.antt =====
-- A verification library for the Lumae Analysis plugin (plugins/LumaeAnalysis): the personal
-- records and shelves that phones keep in step through the plugin, the admission of its catalogue
-- and analysis streams, and the parallel analysis of files within a runner turn. The mutation
-- routes meet in the change feed and the receipts; the other parts do not call one another.
--
-- Parts and files.
--
-- Prelude passes on library names and has the Boolean tests and list functions that all parts use.
--
-- Json: the value of a request body and the field checks `_text`, `_timestamp`, `_number` and
-- `_optional_number` of plugins/LumaeAnalysis/vibes.py and journeys.py. A Python float is an exact
-- dyadic fraction; NaN and the infinities are one value, which no check passes. Every error that a
-- check raises is a value of `Error`, the OverflowError of `math.isfinite` included. Json/Inversion
-- says what a chain of passed checks means.
--
-- Feed: the record tables vibe_records and journey_records. A row has a scope (principal,
-- catalog_id), an id, the latest value, and the sequence number of its last write; `find`, `upsert`
-- and `changes` are the SELECT, the INSERT … ON CONFLICT DO UPDATE with nextval, and the changes
-- routes' query with its page. A transaction that reads or writes a scope holds its lock, so
-- requests are steps one after the other. Feed/Sync and Feed/History add a device that follows the
-- feed by the documented protocol (`cursor`, `hasMore`), and any interleaving of its fetches with
-- writes.
--
-- Receipts: the transaction of the two mutation routes, with the receipts tables
-- (Receipts/Replay, Receipts/Keeps), and the purges of old receipts (Receipts/Retention). A receipt's
-- ctid is its key here, and a purge reads the clock once for all its batches.
--
-- Vibes: plugins/LumaeAnalysis/vibes.py (`validate_mutation`, `_record`, `apply_mutation`, the
-- routes). Journeys: plugins/LumaeAnalysis/journeys.py; Journeys.antt has the merges and
-- `apply_mutation`, Journeys/Checks the checks, Journeys/Routes the routes. The canonical text of a
-- JSON value and its SHA-256 are Python's own libraries: its size and the fingerprint are
-- parameters, and both may raise. A JSON document that PostgreSQL stores and returns is taken to be
-- the one that was sent.
--
-- Shelves: plugins/LumaeAnalysis/shelves.py, the operations add, remove, restore (Shelves.antt),
-- order (Shelves/Orders) and evidence (Shelves/Evidence) of `apply_mutation`, over the rows of one
-- scope, and `validate_mutation` (Shelves/Checks); the sequence numbers of these rows and the rest of
-- the module are not modelled.
-- Shelves/Periods says when members are apart, Shelves/Changes and Shelves/Replays are about changes
-- of members, Shelves/Arranged and Shelves/Revisions about arrangements.
--
-- Rekey: `_replace_exact` of plugins/LumaeAnalysis/provider_identity_rekey.py, the rewrite of ids in
-- stored JSON. The mapping is a renaming function, the identity off the mapping's keys.
--
-- Discovery: plugins/LumaeAnalysis/personal_discovery.py on one principal's tables. Discovery.antt
-- has the records and lookups, Discovery/Mutate `mutate`, Discovery/Checks `validate`,
-- Discovery/Pages `page`, Discovery/Routes `invoke` and the routes. Its records are rows of a feed
-- table whose middle key is the kind; Python's `==` on JSON is Json/Equality; the UUID parser, the size
-- of a JSON text and the fingerprint are parameters.
--
-- Readiness: plugins/LumaeAnalysis/catalog_readiness.py, from the values that it reads of the source,
-- the policy and the counts to the two admissions and the verdict. Fields that only repeat constants
-- or serve diagnostics (the core version, coverage ratios, the retired task evidence) are left out.
--
-- Parallel: plugins/LumaeAnalysis/parallel_analysis.py. Parallel/Sizing has the worker counts,
-- Parallel/Pass the pass that `run` drives with several workers, as a relation of its moments: each
-- step is a turn of the taking loop or a job that comes back, with the clock, the callbacks and the
-- threads free. A pass that raises ends in `cancel_in_flight`, which is given the indexes of the units
-- whose `finish` raises (Parallel/Pass/Cancel). Parallel/Serial has the pass of one file at a time; its
-- calls of `finish`, one for each unit that `prepare` did not handle, are not kept. The average time of
-- a file is an exact fraction here, and `between` while a pass only waits changes nothing and is no
-- step.
--
-- Matching: plugins/LumaeAnalysis/credits_matching.py. Matching.antt has the records and the tests of
-- names, artists and durations, Matching/Verify `verify_release`, Matching/Choose `choose_release`,
-- where a missing key would be `none`, Matching/Credits the credits. Durations are whole milliseconds,
-- missing or not a number, a missing text is empty, and the constant source and matching version are
-- left out. The UUID parser, the normal form of texts, the test of a similarity ratio in hundredths
-- and the digest of a credit are parameters.
--
-- Runner: plugins/LumaeAnalysis/runner.py. Runner.antt has a runner's own state and what changes it,
-- its waits and its row of `runner_state`; Runner/Marks `claim_mark`; Runner/Rounds the loop of a
-- leader; Runner/Registry the runners of a process; Runner/Leaders the processes of
-- one role with the advisory lock, as a relation of the steps that `_main` and `_lead` make. The
-- database server is taken to keep a session's lock until the session unlocks or closes, as its
-- documentation says, and a session to last until the process closes it. Times are milliseconds.
--
-- Tests has the theorems at concrete inputs.
--
-- Loops recur on a list, on the items of a JSON value or on the number of batches left, so no
-- function takes fuel; the taking loop of a parallel pass is a relation, with its own measure.
--
-- Not modelled: the transactions that rewrite provider ids in the tables, schema migrations, SQL planning and
-- isolation below the scope locks, Flask, and the plugin's other modules.
pub mod Discovery
pub mod Rekey
pub mod Runner
pub mod Shelves
pub mod Parallel
pub mod Prelude
pub mod Json
pub mod Feed
pub mod Matching
pub mod Receipts
pub mod Vibes
pub mod Journeys
pub mod Readiness
pub mod Tests
