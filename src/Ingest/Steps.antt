-- ===== src/Ingest/Steps.antt =====
-- The steps `_step_extract` and `_step_index` of ingest.py, with `extract_text` of pdfs.py and
-- `save_tree` of tree_indexer.py.
use mouseion.Prelude.{ℕ, ◌++◌, Option, none, some, List, [], ◌∷◌, map, if◌then◌else◌, length}
use mouseion.Text.{Text, codes, text_eq, strip}
use mouseion.Text.Split.{join_with}
use mouseion.Effect.{Result, ok, err, pure, raise, ◌>>=◌, ◌>>◌}
use mouseion.Jobs.{extracting, indexing, extract, index, set_state, is_step_done, mark_step_done}
use mouseion.Papers.{set_full_text}
use mouseion.Tree.{TreeDocument}
use mouseion.Ingest.{
  Bytes, Failure, raised, cancelled, IngestFault, run_cancelled, unreadable, Ingest, on_jobs,
  on_papers, number, Runtime, ExtractedText, TreeIndexer, Warning, tree_skipped,
}
use mouseion.Ingest.Fetch.{find_file}

-- A page that fails is kept as an empty text.
abbrev pub page_text : Option Text → Text
page_text none = []
page_text (some t) = t

abbrev pub blank_line : Text
blank_line = 10 ∷ 10 ∷ []

abbrev pub extracted_of : Result Text (List (Option Text)) → Result IngestFault ExtractedText
extracted_of (err problem) = err (unreadable problem)
extracted_of (ok pages) = ok (record {
  full_text = strip (join_with blank_line (map page_text pages));
  n_pages = length pages;
  page_texts = map page_text pages;
})

-- `extract_text` of the file of a hash, which may not be there
unfoldable pub extract_text : Runtime → Option Bytes → Result IngestFault ExtractedText
extract_text rt file = extracted_of (rt.open_pages file)

abbrev pub page_count : Runtime → ExtractedText → List (Text × Option Text)
page_count rt text = (codes "n_pages", some (rt.dumps (number text.n_pages))) ∷ []

-- what follows `extract_text`
abbrev pub keep_text : Runtime → Text → ℕ → Result IngestFault ExtractedText → Ingest ExtractedText
keep_text rt k paper_id (err e) = raise e
keep_text rt k paper_id (ok text) = do
  on_papers (set_full_text paper_id text.full_text text.n_pages)
  on_jobs (mark_step_done k extract (page_count rt text))
  pure text

abbrev pub extract_file : Runtime → Text → ℕ → Text → Ingest ExtractedText
extract_file rt k paper_id sha s =
    keep_text rt k paper_id (extract_text rt (find_file sha s.files)) s

unfoldable pub step_extract : Runtime → Text → ℕ → Text → Ingest ExtractedText
step_extract rt k paper_id sha = do
  on_jobs (set_state k extracting none)
  extract_file rt k paper_id sha

-- `os.replace(tmp, path)`
abbrev pub write_tree : TreeDocument → List (Text × TreeDocument) → List (Text × TreeDocument)
write_tree tree [] = (tree.sha256, tree) ∷ []
write_tree tree ((sha, old) ∷ trees) =
    if text_eq sha tree.sha256 then (sha, tree) ∷ trees else (sha, old) ∷ write_tree tree trees

-- the file of the tree of a hash in `tree_dir`
abbrev pub tree_path : Text → Text
tree_path sha = sha ++ codes ".json"

unfoldable pub save_tree : TreeDocument → Ingest Text
save_tree tree s = (ok (tree_path tree.sha256), record s { trees = write_tree tree s.trees })

abbrev pub tree_artifacts : TreeIndexer → Text → List (Text × Option Text)
tree_artifacts indexer path =
    (codes "tree_path", some path) ∷ (codes "tree_indexer", some indexer.name) ∷ []

-- An exception of the indexer is a warning, and the step counts as done; a cancellation passes.
abbrev pub keep_tree : TreeIndexer → Text → Result Failure TreeDocument → Ingest (List Warning)
keep_tree indexer k (ok tree) = do
  path ← save_tree tree
  on_jobs (mark_step_done k index (tree_artifacts indexer path))
  pure []
keep_tree indexer k (err cancelled) = raise run_cancelled
keep_tree indexer k (err (raised problem)) = do
  on_jobs (mark_step_done k index ((codes "tree_error", some problem) ∷ []))
  pure (tree_skipped problem ∷ [])

abbrev pub build_index : TreeIndexer → Text → Text → ExtractedText → Ingest (List Warning)
build_index indexer k sha text = do
  on_jobs (set_state k indexing none)
  keep_tree indexer k (indexer.build_tree sha text)

unfoldable pub step_index : TreeIndexer → Text → Text → ExtractedText → Ingest (List Warning)
step_index indexer k sha text s =
    if is_step_done k index s.jobs then (ok [], s) else build_index indexer k sha text s
