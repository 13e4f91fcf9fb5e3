-- ===== src/Ingest.antt =====
-- backend/src/mouseion/services/ingest.py: what an ingest run reads and writes, the tables of the
-- library with the files beside them, and what the run is given: settings, collaborators, and the
-- libraries that read PDFs, hash bytes and write JSON.
pub mod Fetch
pub mod Steps
pub mod Tag
pub mod Embed
pub mod Run
pub mod Requeue
pub mod Same
pub mod Waiting
pub mod Halts
pub mod Ends
pub mod Stuck
pub mod Files
pub mod Kept
pub mod Known
pub mod Optional
pub mod Marks
pub mod Outputs
pub mod Finished
pub mod Complete
mod Tests
use mouseion.Prelude.{ℕ, Bool, true, false, Option, List, [], ◌∷◌, map}
use mouseion.Text.{Text}
use mouseion.Effect.{Exec, Result, ok, err}
use mouseion.Taxonomy.Store.{TopicRow, Store, Fault, Db}
use mouseion.Taxonomy.Create.{Dropped}
use mouseion.Extraction.{IngestExtraction}
use mouseion.Llm.{LlmFault, llm_cancelled, Retry}
use mouseion.Jobs.{JobState, JobRow, JobFault, JobDb}
use mouseion.Papers.{PaperRow, Papers, PaperFault, PaperDb}
use mouseion.Tree.{TreeDocument}

abbrev pub Bytes : Type 0
Bytes = List ℕ

-- the rows of `paper_vectors` and `paper_embeddings` of a paper; a number of the vector is its bits
pub record Embedding : Type 0 where
  pub paper_id : ℕ
  pub vector : List ℕ
  pub model : Text
  pub dim : ℕ
  pub source : Text

-- The database, and the files of `pdf_dir` and `tree_dir` by the hash that names them. The paper ids
-- in `taxonomy` are those of `papers`, and are read from there.
pub record Library : Type 0 where
  pub jobs : List JobRow
  pub papers : Papers
  pub taxonomy : Store
  pub files : List (Text × Bytes)
  pub trees : List (Text × TreeDocument)
  pub embeddings : List Embedding

-- How a call that is awaited fails: with an exception, by its message, or because the task is cancelled,
-- as arq does to a job that runs longer than `job_timeout`.
pub data Failure : Type 0 where
  raised : Text → Failure
  cancelled : Failure

-- The exceptions: IngestError by its message, NotAPdfError, those of the collaborators, and the
-- CancelledError of the task.
pub data IngestFault : Type 0 where
  unknown_job : Text → IngestFault
  http_status : Text → ℕ → IngestFault
  too_large : Text → ℕ → IngestFault
  transport : Text → Text → IngestFault
  empty_body : Text → IngestFault
  not_a_pdf : Text → IngestFault
  not_pdf_content no_hash_in_payload no_url_in_payload : IngestFault
  file_missing : Text → IngestFault
  paper_vanished : ℕ → IngestFault
  unreadable : Text → IngestFault
  encoder_failed : Text → IngestFault
  from_jobs : JobFault → IngestFault
  from_papers : PaperFault → IngestFault
  from_taxonomy : Fault → IngestFault
  from_llm : LlmFault → IngestFault
  run_cancelled : IngestFault

-- CancelledError is a BaseException and no Exception.
abbrev pub is_exception : IngestFault → Bool
is_exception run_cancelled = false
is_exception (from_llm llm_cancelled) = false
is_exception _ = true

abbrev pub Ingest : Type 0 → Type 0
Ingest = Exec Library IngestFault

abbrev pub relabel {ℓ} : {E F A : Type ℓ} → (E → F) → Result E A → Result F A
relabel fault (ok a) = ok a
relabel fault (err e) = err (fault e)

abbrev pub taxonomy_view : Library → Store
taxonomy_view s = record (s.taxonomy) { papers = map (λ (p : PaperRow). p.id) s.papers.rows }

module _ {A : Type 0} where
  -- an action on the table of the jobs
  abbrev pub on_jobs : JobDb A → Ingest A
  on_jobs m s = let (r, jobs) = m s.jobs in (relabel from_jobs r, record s { jobs = jobs })

  -- an action on the tables `papers` and `paper_texts`
  abbrev pub on_papers : PaperDb A → Ingest A
  on_papers m s =
      let (r, papers) = m s.papers in (relabel from_papers r, record s { papers = papers })

  -- an action on the tables of the taxonomy
  abbrev pub on_taxonomy : Db A → Ingest A
  on_taxonomy m s =
      let (r, taxonomy) = m (taxonomy_view s) in
      (relabel from_taxonomy r, record s { taxonomy = taxonomy })

-- the keys that the pipeline reads from the payload of a job
pub record Payload : Type 0 where
  pub sha256 : Option Text
  pub url : Option Text
  pub source_url : Option Text

-- what `json.dumps` is given for an artifact that is not a string
pub data Json : Type 0 where
  number : ℕ → Json
  numbers : List ℕ → Json
  strings : List Text → Json
  boolean : Bool → Json

-- what the standard library and PyMuPDF do: `hashlib.sha256(data).hexdigest()`, `json.loads` of a
-- payload, which is `{}` where the text does not decode, `json.dumps` of an artifact, the pages of the document in a file, where a page that fails is none,
-- and the line that a fault leaves in the job.
pub record Runtime : Type 0 where
  pub max_upload_bytes : ℕ
  pub sha256_bytes : Bytes → Text
  pub loads : Text → Payload
  pub dumps : Json → Text
  pub open_pages : Option Bytes → Result Text (List (Option Text))
  pub describe : IngestFault → Text

-- services/pdfs.py: `ExtractedText`
pub record ExtractedText : Type 0 where
  pub full_text : Text
  pub n_pages : ℕ
  pub page_texts : List Text

-- services/arxiv.py: `ArxivMetadata`, whose `doi` ingest.py does not read
pub record ArxivMetadata : Type 0 where
  pub title : Option Text
  pub authors : List Text
  pub year : Option ℕ
  pub abstract : Option Text
  pub venue : Option Text

-- a response as it streams: the chunks of the body, and the error that cut it short
pub record Response : Type 0 where
  pub status : ℕ
  pub chunks : List Bytes
  pub broken : Option Text

-- `httpx`, `fetch_metadata`, which raises HTTPError or ValueError or is cancelled, and the
-- patterns of arxiv.py, which `re` matches: the group of the first that matches, and whether an
-- identifier is of the new form
pub record Http : Type 0 where
  pub stream : Text → Result Failure Response
  pub fetch_metadata : Text → Result Failure ArxivMetadata
  pub match_arxiv : Text → Option Text
  pub is_new_id : Text → Bool

-- the `TreeIndexer`, whose `build_tree` may raise or be cancelled
pub record TreeIndexer : Type 0 where
  pub name : Text
  pub build_tree : Text → ExtractedText → Result Failure TreeDocument

-- `METADATA_FIELDS`
pub data Column : Type 0 where
  title authors year venue abstract : Column

pub data KnownValue : Type 0 where
  a_text : Text → KnownValue
  a_year : ℕ → KnownValue
  a_list : List Text → KnownValue

-- what `build_ingest_prompt` is given
pub record IngestRequest : Type 0 where
  pub paper_text : Text
  pub topics : List TopicRow
  pub known : List (Column × KnownValue)
  pub missing : List Column

-- the `LLMClient` on the prompt of a request: the transport, the decoding of an answer, which says
-- what is wrong with it, the message of a refused validation, and the number of attempts
pub record LlmClient : Type 0 where
  pub post : IngestRequest → List Retry → Result LlmFault Text
  pub decode : Text → Result Text IngestExtraction
  pub refusal : Text → Text
  pub llm_max_attempts : ℕ

-- the sentence encoder, and whether the extension sqlite-vec loads
pub record Embedder : Type 0 where
  pub model_name : Text
  pub encode : Text → Result Text (List ℕ)
  pub vec_loads : Bool

pub data Warning : Type 0 where
  tree_skipped : Text → Warning
  topic_dropped : Dropped → Warning
  nothing_to_embed vec_unavailable : Warning

-- `IngestOutcome`, without the id of the job, which is the argument
pub record IngestOutcome : Type 0 where
  pub paper_id : ℕ
  pub sha256 : Text
  pub duplicate : Bool
  pub state : JobState
  pub warnings : List Warning
