-- ===== src/Ingest/Tests.antt =====
-- Runs of the pipeline on a small library, and uses of its theorems.
use mouseion.Prelude.{◌≡◌, refl, true, false, Option, none, some, List, [], ◌∷◌, ◌++◌}
use mouseion.Text.{Text, codes}
use mouseion.Effect.{Result, ok, err}
use mouseion.Jobs.{
  upload, failed, download, tag, JobRow, new_job, bump_attempts, is_step_done, set_state, attach,
  mark_step_done, get_progress,
}
use mouseion.Llm.{llm_error}
use mouseion.Papers.{
  PaperRow, to_read, find_by_sha256, get_or_create_by_sha256, create_paper, get_paper,
}
use mouseion.Ingest.{
  Bytes, Library, raised, cancelled, unreadable, Payload, Runtime, Http, TreeIndexer, LlmClient,
  Embedder, ExtractedText, title, a_text,
}
use mouseion.Ingest.Run.{
  run_ingest, run_steps, after_download, make_paper, with_paper, outcome_of, finish_duplicate,
}
use mouseion.Ingest.Fetch.{
  step_download, fetch, locate_upload, located, download_pdf, store_pdf, looks_like_pdf,
  read_chunks,
}
use mouseion.Ingest.Steps.{step_extract, extract_text}
use mouseion.Ingest.Tag.{step_tag}
use mouseion.Ingest.Complete.{Complete, run_ingest-Complete}
use mouseion.Ingest.Ends.{Ended, run_ingest-Ended}
use mouseion.Ingest.Same.{run_ingest-tagged}
use mouseion.Ingest.Files.{Sound, download_pdf-Sound, Addressed, Stored, store_pdf-Addressed}
use mouseion.Ingest.Known.{Knows, step_tag-Knows}

abbrev a_pdf : Bytes
a_pdf = codes "%PDF-1"

-- what stands for the hash of the bytes
abbrev hash : Bytes → Text
hash content = codes "h" ++ content

abbrev a_payload : Payload
a_payload = record { sha256 = some (hash a_pdf); url = none; source_url = none }

abbrev with_pages : (Option Bytes → Result Text (List (Option Text))) → Runtime
with_pages pages = record {
  max_upload_bytes = 100;
  sha256_bytes = hash;
  loads = λ _. a_payload;
  dumps = λ _. codes "{}";
  open_pages = pages;
  describe = λ _. codes "it failed";
}

-- a runtime whose PyMuPDF cannot open the file, and one whose can
abbrev broken : Runtime
broken = with_pages (λ _. err (codes "broken"))

abbrev working : Runtime
working = with_pages (λ _. ok (some (codes "page") ∷ none ∷ []))

abbrev no_http : Http
no_http = record {
  stream = λ _. ok (record { status = 200; chunks = a_pdf ∷ []; broken = none });
  fetch_metadata = λ _. err (raised (codes "down"));
  match_arxiv = λ _. none;
  is_new_id = λ _. false;
}

abbrev no_indexer : TreeIndexer
no_indexer = record { name = codes "none"; build_tree = λ _ _. err (raised (codes "no tree")) }

abbrev no_llm : LlmClient
no_llm = record {
  post = λ _ _. err llm_error;
  decode = λ _. err (codes "not JSON");
  refusal = λ _. codes "refused";
  llm_max_attempts = 2;
}

abbrev no_embedder : Embedder
no_embedder = record { model_name = codes "m"; encode = λ _. ok (1 ∷ []); vec_loads = true }

abbrev job_id : Text
job_id = codes "j"

abbrev a_job : JobRow
a_job = new_job job_id upload (codes "{}")

-- an upload that waits
abbrev fresh : Library
fresh = record {
  jobs = a_job ∷ [];
  papers = record { rows = []; texts = []; last_id = 0 };
  taxonomy = record { topics = []; links = []; papers = []; last_id = 0 };
  files = (hash a_pdf, a_pdf) ∷ [];
  trees = [];
  embeddings = [];
}

abbrev a_paper : PaperRow
a_paper = record {
  id = 1;
  sha256 = hash a_pdf;
  title = none;
  authors = none;
  year = none;
  venue = none;
  source_url = none;
  abstract = none;
  summary_short = none;
  summary_long = none;
  status = to_read;
}

abbrev failed_job : JobRow
failed_job = record a_job {
  state = failed;
  error = some (codes "it failed");
  paper_id = some 1;
  sha256 = some (hash a_pdf);
  attempts = 1;
  progress = record { steps = download ∷ []; artifacts = (codes "sha256", hash a_pdf) ∷ [] };
}

-- what a run with the broken runtime leaves of it
abbrev after_failure : Library
after_failure = record fresh {
  jobs = failed_job ∷ [];
  papers = record { rows = a_paper ∷ []; texts = []; last_id = 1 };
}

-- An upload whose text cannot be extracted fails; its paper is there, and has no text.
first_run :
    run_ingest broken no_http no_indexer no_llm no_embedder job_id fresh
    ≡ (err (unreadable (codes "broken")), after_failure)
unfolding run_ingest bump_attempts run_steps step_download is_step_done fetch set_state
    locate_upload located attach mark_step_done after_download find_by_sha256 make_paper
    get_or_create_by_sha256 create_paper with_paper step_extract extract_text get_progress
first_run = refl

-- The retry with a runtime that works returns `duplicate` of the paper that the first run made.
retry_run :
    (run_ingest working no_http no_indexer no_llm no_embedder job_id after_failure).0
    ≡ ok (outcome_of 1 (hash a_pdf) true [])
unfolding run_ingest bump_attempts run_steps step_download is_step_done attach set_state
    after_download find_by_sha256 finish_duplicate get_progress
retry_run = refl

run_ingest-Ended_example :
    Ended broken no_http no_indexer no_llm no_embedder job_id
      (run_ingest broken no_http no_indexer no_llm no_embedder job_id fresh)
run_ingest-Ended_example =
    run_ingest-Ended broken no_http no_indexer no_llm no_embedder job_id fresh a_job refl

-- a job whose TAG is done
abbrev tagged : Library
tagged = record fresh {
  jobs = record a_job { progress = record { steps = tag ∷ []; artifacts = [] } } ∷ [];
}

-- a model that can be reached, but does not write JSON
abbrev babbler : LlmClient
babbler = record no_llm { post = λ _ _. ok (codes "so") }

-- a model that reads another title off the text
abbrev reader : LlmClient
reader = record babbler {
  decode = λ _. ok (record {
    metadata = record {
      title = some (codes "X");
      authors = none;
      year = none;
      venue = none;
      abstract = none;
    };
    topics = [];
    summary_short = codes "s";
    summary_long = codes "l";
  });
}

run_ingest-tagged_example :
    run_ingest working no_http no_indexer no_llm no_embedder job_id tagged
    ≡ run_ingest working no_http no_indexer babbler no_embedder job_id tagged
unfolding is_step_done
run_ingest-tagged_example =
    run_ingest-tagged working no_http no_indexer no_llm babbler no_embedder job_id tagged refl

download_pdf-Sound_example : Sound 100 a_pdf
unfolding download_pdf read_chunks looks_like_pdf
download_pdf-Sound_example = download_pdf-Sound no_http (codes "u") 100 a_pdf refl

store_pdf-Addressed_example :
    Addressed working (store_pdf working a_pdf (some (hash a_pdf)) fresh).1.files
    × Stored working a_pdf fresh (store_pdf working a_pdf (some (hash a_pdf)) fresh)
unfolding looks_like_pdf
store_pdf-Addressed_example =
    store_pdf-Addressed working a_pdf (some (hash a_pdf)) fresh refl ((refl, refl), tt)

-- a paper whose title arXiv gave
abbrev titled : Library
titled = record fresh {
  papers = record {
    rows = record a_paper { title = some (codes "T") } ∷ [];
    texts = [];
    last_id = 1;
  };
}

abbrev a_text_of : ExtractedText
a_text_of = record { full_text = codes "page"; n_pages = 1; page_texts = codes "page" ∷ [] }

step_tag-Knows_example :
    Knows 1 title (a_text (codes "T")) (step_tag working reader job_id 1 a_text_of titled).1
unfolding get_paper
step_tag-Knows_example =
    step_tag-Knows 1 title (a_text (codes "T")) working reader job_id a_text_of titled
      (record a_paper { title = some (codes "T") }, refl, refl)

run_ingest-Complete_example :
    Complete working no_http no_indexer reader no_embedder job_id
      (run_ingest working no_http no_indexer reader no_embedder job_id fresh)
run_ingest-Complete_example =
    run_ingest-Complete working no_http no_indexer reader no_embedder job_id fresh a_job refl

-- an indexer that still works when the time of the job is over
abbrev slow_indexer : TreeIndexer
slow_indexer = record no_indexer { build_tree = λ _ _. err cancelled }

abbrev after_timeout : Library
after_timeout = (run_ingest working no_http slow_indexer no_llm no_embedder job_id fresh).1
