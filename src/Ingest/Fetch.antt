-- ===== src/Ingest/Fetch.antt =====
-- Getting the bytes of a paper: `download_pdf`, `_resolve_source` and `_step_download` of ingest.py,
-- `looks_like_pdf` and `store_pdf` of pdfs.py, `normalize_arxiv_url` of arxiv.py.
use mouseion.Prelude.{
  ℕ, ◌+◌, Bool, false, not, ◌&&◌, ◌||◌, ◌/◌, Option, none, some, List, [], ◌∷◌, ◌++◌, ◌==◌, leb,
  take, if◌then◌else◌, is_empty, is_some, length,
}
use mouseion.Text.{Text, codes, text_eq, strip, nocase}
use mouseion.Effect.{Result, ok, err, pure, raise, ◌>>=◌, ◌>>◌}
use mouseion.Jobs.{
  downloading, JobKind, upload, url, download, JobRow, set_state, attach, is_step_done,
  mark_step_done,
}
use mouseion.Ingest.{
  Bytes, Library, Failure, raised, cancelled, IngestFault, run_cancelled, http_status, too_large,
  transport, empty_body, not_a_pdf, not_pdf_content, no_hash_in_payload, no_url_in_payload,
  file_missing, Ingest, on_jobs, Payload, Runtime, ArxivMetadata, Response, Http,
}

-- `bytes.lstrip` strips the white space of ASCII.
abbrev pub lstrip_bytes : Bytes → Bytes
lstrip_bytes [] = []
lstrip_bytes (b ∷ content) =
    let rest = lstrip_bytes content in
    if (leb 9 b && leb b 13) || b == 32 then rest else b ∷ content

unfoldable pub looks_like_pdf : Bytes → Bool
looks_like_pdf content = text_eq (take 5 (lstrip_bytes (take 1024 content))) (codes "%PDF-")

abbrev pub put_before : Bytes → Option Bytes → Option Bytes
put_before chunk none = none
put_before chunk (some rest) = some (chunk ++ rest)

-- the bytes of the chunks, unless they are more than `max_bytes`, of which `total` are read
unfoldable pub read_chunks : ℕ → ℕ → List Bytes → Option Bytes
read_chunks max_bytes total [] = some []
read_chunks max_bytes total (chunk ∷ more) =
    let rest = read_chunks max_bytes (total + length chunk) more in
    if not (leb (total + length chunk) max_bytes) then none else put_before chunk rest

-- the checks after the stream
abbrev pub check_body : Text → Bytes → Result IngestFault Bytes
check_body address content =
    if is_empty content
    then err (empty_body address)
    else if not (looks_like_pdf content)
    then err (not_a_pdf address)
    else ok content

abbrev pub finish_stream : Text → ℕ → Option Text → Option Bytes → Result IngestFault Bytes
finish_stream address max_bytes broken none = err (too_large address (max_bytes / 1048576))
finish_stream address max_bytes (some problem) (some content) = err (transport address problem)
finish_stream address max_bytes none (some content) = check_body address content

abbrev pub read_response : Text → ℕ → Result Failure Response → Result IngestFault Bytes
read_response address max_bytes (err cancelled) = err run_cancelled
read_response address max_bytes (err (raised problem)) = err (transport address problem)
read_response address max_bytes (ok response) =
    if leb 400 response.status
    then err (http_status address response.status)
    else finish_stream address max_bytes response.broken (read_chunks max_bytes 0 response.chunks)

unfoldable pub download_pdf : Http → Text → ℕ → Result IngestFault Bytes
download_pdf http address max_bytes = read_response address max_bytes (http.stream address)

abbrev pub abs_url : Text → Text
abs_url arxiv_id = codes "https://arxiv.org/abs/" ++ arxiv_id

abbrev pub pdf_url : Text → Text
pdf_url arxiv_id = codes "https://arxiv.org/pdf/" ++ (arxiv_id ++ codes ".pdf")

-- Only an identifier of the new form is folded to lower case; it is ASCII but for its digits.
abbrev pub fold_new : Http → Option Text → Option Text
fold_new http none = none
fold_new http (some arxiv_id) = some (if http.is_new_id arxiv_id then nocase arxiv_id else arxiv_id)

unfoldable pub normalize_arxiv_url : Http → Text → Option Text
normalize_arxiv_url http value =
    if is_empty (strip value) then none else fold_new http (http.match_arxiv (strip value))

-- `except (httpx.HTTPError, ValueError)`: a failed lookup of the metadata leaves none.
abbrev pub metadata_or_none :
    Result Failure ArxivMetadata → Result IngestFault (Option ArxivMetadata)
metadata_or_none (ok m) = ok (some m)
metadata_or_none (err (raised problem)) = ok none
metadata_or_none (err cancelled) = err run_cancelled

-- what a download gives: the bytes, the canonical address, the metadata
pub record Resolved : Type 0 where
  pub content : Bytes
  pub source_url : Text
  pub metadata : Option ArxivMetadata

abbrev pub resolved_as :
    Text → Option ArxivMetadata → Result IngestFault Bytes → Result IngestFault Resolved
resolved_as source_url metadata (err e) = err e
resolved_as source_url metadata (ok content) =
    ok (record { content = content; source_url = source_url; metadata = metadata })

-- the download of the PDF of an arXiv paper, after the lookup of its metadata
abbrev pub resolve_arxiv :
    Text
    → Result IngestFault (Option ArxivMetadata)
    → Result IngestFault Bytes
    → Result IngestFault Resolved
resolve_arxiv arxiv_id (err e) content = err e
resolve_arxiv arxiv_id (ok metadata) content = resolved_as (abs_url arxiv_id) metadata content

unfoldable pub resolve_source : Runtime → Http → Text → Result IngestFault Resolved
unfolding download_pdf
resolve_source rt http address = elim (normalize_arxiv_url http address) [
  | none ↦ resolved_as address none (download_pdf http address rt.max_upload_bytes)
  | some arxiv_id ↦
      resolve_arxiv arxiv_id (metadata_or_none (http.fetch_metadata arxiv_id))
        (download_pdf http (pdf_url arxiv_id) rt.max_upload_bytes)
]

-- the bytes of the file that a hash names
abbrev pub find_file : Text → List (Text × Bytes) → Option Bytes
find_file name [] = none
find_file name ((n, content) ∷ files) =
    if text_eq n name then some content else find_file name files

-- `pdf_path_for(pdf_dir, sha256).exists()`
abbrev pub file_exists : Text → Library → Bool
file_exists sha s = is_some (find_file sha s.files)

-- `os.replace(tmp, target)`
abbrev pub write_file : Text → Bytes → List (Text × Bytes) → List (Text × Bytes)
write_file name content [] = (name, content) ∷ []
write_file name content ((n, old) ∷ files) =
    if text_eq n name then (n, content) ∷ files else (n, old) ∷ write_file name content files

-- `target.exists() and target.stat().st_size == len(data)`
abbrev pub same_size : Bytes → Option Bytes → Bool
same_size content none = false
same_size content (some old) = length old == length content

-- the file of `digest`, written unless one of the size is there
abbrev pub store_at : Text → Bytes → Ingest Text
store_at digest content s =
    if same_size content (find_file digest s.files)
    then (ok digest, s)
    else (ok digest, record s { files = write_file digest content s.files })

-- `sha256 or sha256_bytes(data)`
abbrev pub digest_or : Runtime → Bytes → Option Text → Text
digest_or rt content none = rt.sha256_bytes content
digest_or rt content (some sha) = if is_empty sha then rt.sha256_bytes content else sha

unfoldable pub store_pdf : Runtime → Bytes → Option Text → Ingest Text
store_pdf rt content sha256 s =
    if not (looks_like_pdf content)
    then (err not_pdf_content, s)
    else store_at (digest_or rt content sha256) content s

-- what a download step returns: the hash, the address, the metadata
pub record Located : Type 0 where
  pub sha256 : Text
  pub source_url : Option Text
  pub metadata : Option ArxivMetadata

-- a text that is not false in a Python test
abbrev pub truthy : Option Text → Option Text
truthy none = none
truthy (some t) = if is_empty t then none else some t

-- `a or b`, as far as a test reads it
abbrev pub or_else : Option Text → Option Text → Option Text
or_else none b = truthy b
or_else (some a) b = if is_empty a then truthy b else some a

abbrev pub location : Located → List (Text × Option Text)
location l = (codes "sha256", some l.sha256) ∷ (codes "source_url", l.source_url) ∷ []

-- the last lines of `_step_download`
unfoldable pub located : Text → Located → Ingest Located
located k l = do
  on_jobs (attach k none (some l.sha256) none)
  on_jobs (mark_step_done k download (location l))
  pure l

abbrev pub lift {ℓ} : {E A S : Type ℓ} → Result E A → S → Result E A × S
lift r s = (r, s)

-- the branch of an upload
unfoldable pub locate_upload : Text → Payload → Ingest Located
locate_upload k payload s = elim (truthy payload.sha256) [
  | none ↦ (err no_hash_in_payload, s)
  | some sha ↦
      if not (file_exists sha s)
      then (err (file_missing sha), s)
      else located k (record { sha256 = sha; source_url = payload.source_url; metadata = none }) s
]

abbrev pub stored : Resolved → Text → Located
stored r sha = record { sha256 = sha; source_url = some r.source_url; metadata = r.metadata }

abbrev pub stored_as : Text → Resolved → Text → Ingest Located
stored_as k r sha = located k (stored r sha)

-- `store_pdf` of what was downloaded; its NotAPdfError is raised again as an IngestError
abbrev pub keep_resolved : Runtime → Text → Resolved → Ingest Located
keep_resolved rt k r = store_pdf rt r.content (some (rt.sha256_bytes r.content)) >>= stored_as k r

-- the branch of a URL
unfoldable pub locate_url : Runtime → Http → Text → Payload → Ingest Located
locate_url rt http k payload = elim (truthy payload.url) [
  | none ↦ raise no_url_in_payload
  | some address ↦ lift (resolve_source rt http address) >>= keep_resolved rt k
]

abbrev pub locate : Runtime → Http → Text → JobKind → Payload → Ingest Located
locate rt http k upload payload = locate_upload k payload
locate rt http k url payload = locate_url rt http k payload

-- `_step_download` where the step is not done, or the file is gone
unfoldable pub fetch : Runtime → Http → Text → JobRow → Payload → Ingest Located
fetch rt http k job payload = do
  on_jobs (set_state k downloading none)
  locate rt http k job.kind payload

-- `artifacts.get(name)`
abbrev pub find_artifact : Text → List (Text × Text) → Option Text
find_artifact name [] = none
find_artifact name ((n, value) ∷ rest) =
    if text_eq n name then some value else find_artifact name rest

-- the hash of a download that is done and whose file is there
abbrev pub on_disk : Option Text → Library → Option Text
on_disk none s = none
on_disk (some sha) s = if file_exists sha s then some sha else none

abbrev pub done_download : Text → JobRow → List (Text × Text) → Library → Option Text
done_download k job artifacts s =
    if is_step_done k download s.jobs
    then on_disk (or_else (find_artifact (codes "sha256") artifacts) job.sha256) s
    else none

unfoldable pub step_download :
    Runtime → Http → Text → JobRow → Payload → List (Text × Text) → Ingest Located
step_download rt http k job payload artifacts s = elim (done_download k job artifacts s) [
  | some sha ↦ (
    ok (record {
      sha256 = sha;
      source_url = find_artifact (codes "source_url") artifacts;
      metadata = none;
    }),
    s,
  )
  | none ↦ fetch rt http k job payload s
]
