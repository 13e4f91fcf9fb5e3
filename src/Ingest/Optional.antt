-- ===== src/Ingest/Optional.antt =====
-- The tree of a paper is optional.
use mouseion.Prelude.{
  ◌≡◌, refl, true, Option, none, some, List, [], ◌∷◌, arith, Bool-cases, inl, inr,
}
use mouseion.Text.{Text, codes, text_eq_refl}
use mouseion.Effect.{Result, ok, err}
use mouseion.Jobs.{JobRow, index, indexing, is_step_done, set_state, mark_step_done}
use mouseion.Jobs.Held.{Held, Held-row, Held-set_state}
use mouseion.Jobs.Resume.{mark_step_done-is_step_done}
use mouseion.Tree.{TreeDocument}
use mouseion.Ingest.{
  Library, Failure, raised, cancelled, IngestFault, run_cancelled, on_jobs, TreeIndexer,
  ExtractedText, Warning,
}
use mouseion.Ingest.Steps.{tree_artifacts, tree_path, save_tree, keep_tree, step_index}

module _ (k : Text) where
  -- The action returned, and the step is done; or the task was cancelled.
  abbrev pub Indexed : Result IngestFault (List Warning) × Library → Type 0
  Indexed (ok warnings, s) = is_step_done k index s.jobs ≡ true
  Indexed (err e, s) = e ≡ run_cancelled

  marked-done :
      (artifacts : List (Text × Option Text)) (js : List JobRow)
      → Held k js
      → is_step_done k index (mark_step_done k index artifacts js).1 ≡ true
  marked-done artifacts js h =
      let (row, found) = Held-row k js h in
      ground
        (arith, mark_step_done-is_step_done k index artifacts js row found k index, text_eq_refl k)

  keep_tree-Indexed :
      (indexer : TreeIndexer) (r : Result Failure TreeDocument) (s : Library)
      → Held k s.jobs
      → Indexed (keep_tree indexer k r s)
  unfolding save_tree mark_step_done
  keep_tree-Indexed indexer (ok tree) s h =
      marked-done (tree_artifacts indexer (tree_path tree.sha256)) s.jobs h
  keep_tree-Indexed indexer (err cancelled) s h = refl
  keep_tree-Indexed indexer (err (raised problem)) s h =
      marked-done ((codes "tree_error", some problem) ∷ []) s.jobs h

  -- For a job that exists the indexing step raises nothing but a cancellation, whatever the indexer
  -- does, and INDEX is done after it.
  pub step_index-Indexed :
      (indexer : TreeIndexer) (sha : Text) (text : ExtractedText) (s : Library)
      → Held k s.jobs
      → Indexed (step_index indexer k sha text s)
  unfolding step_index set_state
  step_index-Indexed indexer sha text s h = elim (Bool-cases (is_step_done k index s.jobs)) [
    | inl e ↦ rw (e, step_index) e
    | inr e ↦
        rw (e, step_index)
          (keep_tree-Indexed indexer (indexer.build_tree sha text)
            (on_jobs (set_state k indexing none) s).1 (Held-set_state k indexing none s.jobs h))
  ]
