-- ===== src/Lib.antt =====
-- A verification library for Fixer, a local-first metadata scraper (Rust crates under crates/).
--
-- Parts, and the files that model them.
--
-- Common, Std: the helpers of the library. Common has the Boolean tests, equality as an interface
-- (Rust's PartialEq) and lists; Std has what the code uses of Rust's standard library: results,
-- text and decimal numbers, the stable sort, ordered maps, Unix paths and the file system. A text
-- that the code walks is a list of code points; one that it only stores or compares is a native
-- String. Integers are natural numbers; where the code has a bound (lengths, u64 event numbers,
-- i64 timestamps and row ids) the bound is written out.
--
-- Core: crates/fixer-core. Core/Error and Core/Identity are error.rs and identity.rs, Core/Scrape
-- is scrape.rs (exact targets, audit reports, the replacement manifest), Core/Locale is locale.rs,
-- Core/Matching is matching/mod.rs with the candidates of provider.rs, Core/Merge is
-- merge/policy.rs, provenance.rs, resolved.rs and merge/mod.rs, with the movie merger in
-- Core/Merge/Movie, Core/Media is media/ (common.rs in Common, Parts and Assets, movie.rs in Movie,
-- television.rs and anime.rs in Television, music.rs and the works of book.rs in Music, ISBNs in
-- Isbn), and Core/Output is output/plan.rs. The parser of language tags, the Unicode table of lower
-- case and the numbers of ratings (f32) are parameters; the completeness of a movie is the number
-- of the six fields that are there, of which the code takes the sixth part. The parents of a tag are computed in as
-- many steps as the tag has characters, and each step drops at least one.
--
-- Jobs: crates/fixer-server. Jobs/State and Jobs/Model are jobs/model.rs. Jobs/Store is the part
-- of store/mod.rs and store/sqlite.rs over the tables jobs and job_executions: a SQL statement or
-- transaction is a function from the tables to an error or a result with the new tables, with the
-- CHECK constraints of the schema as the error `database`. The time is an argument of each
-- operation. Jobs/Store/Steps has the histories: any statements in any order. Jobs/Events is
-- jobs/events.rs: the hub behind its mutex is a state that each operation changes at once, and the
-- broadcast channel is the list of the events that it delivers. Jobs/Artifacts is jobs/artifacts.rs,
-- the bounded views of candidates, merged movies and plans, and Jobs/Automation the decision in
-- jobs/worker.rs whether a job runs without a review. Jobs/Runtime is jobs/mod.rs over the tables,
-- the events and the queue: a request under the lock `operations` is one step. What takes several
-- steps is a task over a Course (Jobs/Runtime/Course): before each step others may have moved the
-- runtime, and a list says how; further lists have the clock's next times, the scans, the ends of
-- the plans and the wishes to stop that are to come. Flow reconstructs the plan of a review,
-- Review has reviews and executions, Worker the worker and the stages of a job, Runs the requests
-- for a run and for events. What a scan leads to (the artifacts of jobs/worker.rs, over providers
-- and writers) is an interface, whose answers are to come as well. An attempt at a statement is
-- made four times, as in the code; the loop that leaves a job has a bound on its rounds, and so
-- has the loop that claims one, and the answer false where they have not ended by then. The task
-- of an execution begins after its state is published; a panic inside it, and the delays between
-- attempts, are left out.
--
-- Sdk: crates/fixer-sdk/src/output, the executor of output plans (executor.rs, fingerprint.rs), on
-- Unix. Std/Fs is std::fs as it uses it: a tree of files, directories and links by their paths,
-- where any call may also fail for a reason outside the tree (a list says which of the next calls
-- do), and Std/Action the chains of such calls. Paths are resolved as Linux does where the policy of
-- the server or a placement asks for a canonical path, or the policy for what is at a path
-- (Std/Fs/Walk): `..` leads to the parent of the directory that was reached and a link in any place
-- is followed; Std/Fs/Resolved has that as a relation. The executor's other calls look a path up as
-- it is spelled: only its last component is followed as a
-- link, at most 40 times as Linux does; a file's content belongs to its path, so that a write
-- through one hard link is not seen through another; nobody else changes the tree during a run,
-- and so what is between a check and a call is a failure of the call at most. Sdk/Targets has the
-- paths of an operation, Sdk/Temp the files beside a target and their publication, Sdk/Move the
-- moves, Sdk/Operations the seven operations, Sdk/Audit the reports, Sdk/Preflight the checks
-- before a run, Sdk/Executor the runs, Sdk/Prepare the observations and Sdk/Placement how a media
-- file is placed. The digest of a content, the call that makes a reflink, and the process's
-- directory and number are parameters. A temporary name is tried 100 times, as in the code; the
-- search for an existing ancestor has as many rounds as the path has components, and each drops
-- one. The branches for Windows, and the texts of errors, are left out.
--
-- Server: the rest of crates/fixer-server. Server/FsPolicy is fs_policy.rs over the same file
-- system: the search for what is there of a path has as many rounds as the path has components and
-- one more, and each look goes through `..` and every link.
--
-- Server/Auth is auth/, the tables of users, sessions and tokens in store/sqlite.rs, and the
-- routes of api/v1/auth.rs: Secrets the passwords and secrets, Store the statements, Requests the
-- check of a request and the cookies, Routes the routes. SHA-256, base64, Argon2, the clock and the
-- random bytes are parameters; a route keeps the tables as its statements left them also where it
-- ends with an error.
--
-- Writer: crates/fixer-writer-local. Writer/PathTemplate is path_template.rs: the parser of
-- templates has one round more than the template has characters, and each takes four (a loop that
-- has none left is told from an error of the template); the tables
-- of lower and upper case are parameters, and so is the text of an error of the core. Its module
-- Projected has the context of a movie.
--
-- How they interact: the movie merger resolves what providers found, under the precedence of
-- Core/Merge/Policy; its conflicts and warnings are shown by Jobs/Artifacts and decide in
-- Jobs/Automation, and its titles name the output; templates render the targets of output plans; the server's policy checks the
-- plans of Core/Output that the executor is to run; the executor runs the plans of Core/Output and
-- reports with the records of Core/Scrape, whose manifest decides what a later run may replace; a
-- job's row carries its input and the summaries of Jobs/Model, whose selection and reports are
-- those of Core/Scrape; the store moves the job along the state machine of Jobs/State; the events
-- announce the states to clients.
--
-- Not modelled: the JSON encoding of rows (serde), failures of SQLite itself, locks (each
-- operation under a mutex is one step), and the parts that the manifest lists as not modelled.
pub mod Common
pub mod Std
pub mod Core
pub mod Jobs
pub mod Sdk
pub mod Server
pub mod Writer
mod Tests
