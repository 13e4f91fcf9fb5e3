-- ===== src/Lib.antt =====
-- Mouseion, a self-hosted library of papers: a verification library beside the backend.
--
-- The backend is a set of services over one SQLite database. A worker ingests papers and applies the
-- topic decisions of a language model to a curated taxonomy; the API and its pages edit the taxonomy.
-- The services call the model through `complete_json`, which validates its answers. The examiner
-- puts a reader to an oral exam on one paper: the reader explains, two or three probes follow, then a
-- verdict; the session is a row of `test_sessions` that every answer reads and writes.
--
-- Files and the code that they are about (paths from the root of the repository):
--   Prelude, Text, Effect: Boolean tests on numbers, lists of keys, Python strings as lists of code
--     points with `strip`, `\s+` and NOCASE; functions that read and write a store and may raise, and
--     `transaction` of backend/src/mouseion/db.py, which restores the store when the block raises.
--   Taxonomy: backend/src/mouseion/services/taxonomy.py. Store has the tables `topics` and
--     `paper_topics` of backend/migrations/versions/0001_initial_schema.py as lists of rows, and one
--     function per statement with the constraints SQLite enforces. Lookup, Walk, Create, Edit and
--     Tagged have the functions of the file under their own names. Sorting, Walk/Loop, Walk/Below,
--     Create/Names, Create/Outcome, Edit/*, Valid, Decided, Applied,
--     Deleted and Renamed hold the proofs.
--   Llm: `complete_json` of backend/src/mouseion/services/llm.py over a transport and a validation
--     that are parameters.
--   Exam: backend/src/mouseion/services/examiner.py. Schema has the validators of the examiner's
--     output from backend/src/mouseion/services/schemas.py; Answer the tests on an answer; Session
--     the rows of `test_sessions` (migrations 0001 and 0003) and how a session is read from one;
--     Ground the section tree, the grounding and the two calls of the model; Turns the turns of a
--     transcript and the question that a session shows; Advance the operations.
--     The proofs are in Schema/Valid, Session/Rows, Session/State, Ground/Sections and Advance/*.
--     The other services that the examiner calls are the fields of the record `Services`.
--   Extraction: the payload of the combined ingest call in backend/src/mouseion/services/schemas.py,
--     with its validators; Extraction/Assignments and Extraction/Named tie them to
--     `apply_topic_assignments`.
--   Jobs: backend/src/mouseion/services/jobs.py over the rows of `ingest_jobs` (migration 0001); the
--     proofs are in Jobs/Resume and Jobs/Held.
--   Papers: backend/src/mouseion/services/papers.py over the rows of `papers` and `paper_texts`;
--     the proofs are in Authors, Rows and Dedup.
--   Notes: backend/src/mouseion/services/notes.py over the rows of `notes`.
--   Tree: backend/src/mouseion/services/tree_indexer.py. Outline has the heuristic indexer, Navigate the
--     selection of nodes; the proofs are in Refilled, Order and Selected.
--   Ingest: backend/src/mouseion/services/ingest.py. Library is the database and the files beside it;
--     Fetch, Steps, Tag and Embed have the steps, with the parts of pdfs.py, arxiv.py and embeddings.py
--     (backend/src/mouseion/services) that they call, and Run the run of one job. Requeue is `retry_job` of
--     backend/src/mouseion/api/jobs.py. The proofs are in Kept, Waiting, Halts, Ends, Stuck, Marks,
--     Outputs, Finished, Complete, Same, Known, Files and Optional. What the run is given are records:
--     Runtime, Http, TreeIndexer, LlmClient, Embedder.
--   Search: backend/src/mouseion/services/search.py, the query expression, the sort key and the
--     highlighting; the proof is in Markup.
--   Prompts: backend/src/mouseion/services/prompts.py, the user parts of the question prompts, the
--     headings and the cutting of a text.
--   Qa: backend/src/mouseion/services/qa.py. Fusion, Sections, Gather, Budget, History, Citations and
--     Prepare have the functions; the proofs are in Fused, Grounded, Bounds and Warned.
--   Auth: the middleware of backend/src/mouseion/auth.py, over `str.lower` and the digits of `\d`, which
--     are parameters.
--
-- Numbers: ids and counts are natural numbers; AUTOINCREMENT is a counter in the store. Bounds: the
-- breadth-first walk of `descendant_ids` runs on fuel of one more than the number of topics, and each
-- topic enters the frontier once, so the walk ends by itself; `ancestor_ids` has the same fuel.
--
-- The eviction of `budget_grounding_material` has the number of the papers as fuel, and every round takes
-- one away; `from_pages` has the number of the pages, and every round takes five. Floats, their sum, order
-- and reciprocals are parameters.
--
-- An exam needs no fuel: one answer is one step. A JSON column is the value that its text denotes and a
-- time a number of seconds. Requests for the same session that overlap are not modelled.
--
-- What another process may write between the lookup and the INSERT of `get_or_create_topic` is a
-- function `race`. Inside a transaction, which holds the write lock, it is the identity.
--
-- A run can be cancelled at each call that it awaits, as the time limit of a job in
-- backend/src/mouseion/worker.py does: the collaborators return `cancelled`, or `llm_cancelled`, and the
-- handler of the run lets it pass. The death of the process is not modelled, nor is the closing of the
-- HTTP client in the `finally` of the run, with a cancellation that falls on it.
--
-- While a tree is built, a node in it is referred to by the numbers of the children on the way to it.
--
-- During an ingest run nothing else writes to the library. The wording of a message is left out where a
-- constructor of the fault says what it names.
--
-- Not modelled: HTTP, rendering, the network, PDF parsing, logging, the system prompts, the search
-- statement, the chat pipes, and of question answering the candidates, the log and the title lock.
pub mod Prelude
pub mod Text
pub mod Effect
pub mod Taxonomy
pub mod Llm
pub mod Exam
pub mod Jobs
pub mod Extraction
pub mod Auth
pub mod Papers
pub mod Tree
pub mod Ingest
pub mod Qa
pub mod Search
pub mod Prompts
pub mod Notes
