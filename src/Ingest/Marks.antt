-- ===== src/Ingest/Marks.antt =====
-- DOWNLOAD and EXTRACT: a step that returns is marked as done.
use mouseion.Prelude.{
  ℕ, ◌≡◌, ◌∙◌, arith, true, Option, none, some, List, Option-cases, Bool-cases, inl, inr,
}
use mouseion.Text.{Text, text_eq_refl}
use mouseion.Effect.{Result, ok, err, pure, ◌>>◌, ◌>>=◌, Keeps}
use mouseion.Jobs.{
  downloading, extracting, Step, same_step, download, extract, JobKind, upload, url, JobRow,
  set_state, attach, mark_step_done, is_step_done,
}
use mouseion.Jobs.Resume.{mark_step_done-is_step_done}
use mouseion.Jobs.Held.{Held, Held-row, Held-set_state, Held-attach, Done}
use mouseion.Papers.{set_full_text}
use mouseion.Ingest.{
  Library, IngestFault, Ingest, on_jobs, on_papers, Payload, Runtime, Http, ExtractedText,
}
use mouseion.Ingest.Fetch.{
  Located, location, store_pdf, located, locate_upload, locate_url, locate, fetch, step_download,
  lift, truthy, file_exists, find_file, stored, stored_as, keep_resolved, resolve_source,
  done_download,
}
use mouseion.Ingest.Steps.{step_extract, page_count, keep_text, extract_text}

-- where an action returned, what holds of the library it leaves
abbrev pub AfterOk : {A : Type 0} → (Library → Type 0) → Result IngestFault A × Library → Type 0
AfterOk Q (ok a, s) = Q s
AfterOk Q (err e, s) = Unit

module _ (k : Text) where
  abbrev pub HeldIn : Library → Type 0
  HeldIn s = Held k s.jobs

  pub after_bind :
      {A B : Type 0} (Q : Library → Type 0) (m : Ingest A) (f : A → Ingest B)
      → Keeps HeldIn m
      → ((a : A) (s : Library) → HeldIn s → AfterOk Q (f a s))
      → (s : Library) → HeldIn s
      → AfterOk Q ((m >>= f) s)
  after_bind {A = A} {B = B} Q m f km kf s h = go (m s) (km s h)
    where
      go :
          (p : Result IngestFault A × Library)
          → HeldIn p.1
          → AfterOk Q (elim p.0 as (λ _. Result IngestFault B × Library) [
            | ok a ↦ f a p.1
            | err e ↦ (err e, p.1)
          ])
      go (ok a, s') h' = kf a s' h'
      go (err e, s') h' = tt

  pub after_lift :
      {A B : Type 0} (Q : Library → Type 0) (r : Result IngestFault A) (f : A → Ingest B)
      → ((a : A) (s : Library) → HeldIn s → AfterOk Q (f a s))
      → (s : Library) → HeldIn s
      → AfterOk Q ((lift r >>= f) s)
  after_lift Q (ok a) f kf s h = kf a s h
  after_lift Q (err e) f kf s h = tt

  abbrev pub DoneIn : Step → Library → Type 0
  DoneIn t s = Done k t s.jobs

  same_step_refl : (t : Step) → same_step t t ≡ true
  same_step_refl t = ground arith

  pub marked-Done :
      (t : Step) (artifacts : List (Text × Option Text)) (js : List JobRow)
      → Held k js
      → Done k t (mark_step_done k t artifacts js).1
  marked-Done t artifacts js h =
      let (row, found) = Held-row k js h in
      mark_step_done-is_step_done k t artifacts js row found k t
      ∙ ground (arith, text_eq_refl k, same_step_refl t)

  located-Done : (l : Located) (s : Library) → HeldIn s → AfterOk (DoneIn download) (located k l s)
  unfolding located attach mark_step_done
  located-Done l s h =
      marked-Done download (location l) (attach k none (some l.sha256) none s.jobs).1
        (Held-attach k none (some l.sha256) none s.jobs h)

  upload-Done :
      (payload : Payload) (s : Library)
      → HeldIn s
      → AfterOk (DoneIn download) (locate_upload k payload s)
  unfolding locate_upload
  upload-Done payload s h = elim (Option-cases (truthy payload.sha256)) [
    | inl e ↦ rw (e, locate_upload) tt
    | inr (sha, e) ↦
        let l : Located = record {
          sha256 = sha;
          source_url = payload.source_url;
          metadata = none;
        } in
        elim (Bool-cases (file_exists sha s)) [
          | inl there ↦ rw (e, there, locate_upload) (located-Done l s h)
          | inr missing ↦ rw (e, missing, locate_upload) tt
        ]
  ]

  Held-store_pdf :
      (rt : Runtime) (content : List ℕ) (sha : Option Text)
      → Keeps HeldIn (store_pdf rt content sha)
  unfolding store_pdf
  Held-store_pdf rt content sha s h = ground (arith, h)

  url-Done :
      (rt : Runtime) (http : Http) (payload : Payload) (s : Library)
      → HeldIn s
      → AfterOk (DoneIn download) (locate_url rt http k payload s)
  unfolding locate_url
  url-Done rt http payload s h = elim (Option-cases (truthy payload.url)) [
    | inl e ↦ rw (e, locate_url) tt
    | inr (address, e) ↦
        rw (e, locate_url)
          (after_lift (DoneIn download) (resolve_source rt http address) (keep_resolved rt k)
            (λ r.
              after_bind (DoneIn download)
                (store_pdf rt r.content (some (rt.sha256_bytes r.content))) (stored_as k r)
                (Held-store_pdf rt r.content (some (rt.sha256_bytes r.content)))
                (λ sha. located-Done (stored r sha)))
            s h)
  ]

  locate-Done :
      (rt : Runtime) (http : Http) (kind : JobKind) (payload : Payload) (s : Library)
      → HeldIn s
      → AfterOk (DoneIn download) (locate rt http k kind payload s)
  locate-Done rt http upload payload = upload-Done payload
  locate-Done rt http url payload = url-Done rt http payload

  pub step_download-Done :
      (rt : Runtime) (http : Http) (job : JobRow) (payload : Payload)
      (artifacts : List (Text × Text)) (s : Library)
      → HeldIn s
      → AfterOk (DoneIn download) (step_download rt http k job payload artifacts s)
  unfolding step_download fetch set_state
  step_download-Done rt http job payload artifacts s h =
      elim (Option-cases (done_download k job artifacts s)) [
        | inl e ↦
            rw (e, step_download)
              (locate-Done rt http job.kind payload (on_jobs (set_state k downloading none) s).1
                (Held-set_state k downloading none s.jobs h))
        | inr (sha, e) ↦
            rw (e, step_download)
              (elim (Bool-cases (is_step_done k download s.jobs)) [
                | inl done ↦ done
                | inr not_done ↦ cc (rw (not_done, done_download) at e)
              ])
      ]

  text-Done :
      (rt : Runtime) (paper_id : ℕ) (r : Result IngestFault ExtractedText) (s : Library)
      → HeldIn s
      → AfterOk (DoneIn extract) (keep_text rt k paper_id r s)
  unfolding mark_step_done
  text-Done rt paper_id (err e) s h = tt
  text-Done rt paper_id (ok text) s h =
      after_bind (DoneIn extract) (on_papers (set_full_text paper_id text.full_text text.n_pages))
        (λ _. on_jobs (mark_step_done k extract (page_count rt text)) >> pure text) (λ s' h'. h')
        (λ _ s' h'. marked-Done extract (page_count rt text) s'.jobs h') s h

  pub step_extract-Done :
      (rt : Runtime) (paper_id : ℕ) (sha : Text) (s : Library)
      → HeldIn s
      → AfterOk (DoneIn extract) (step_extract rt k paper_id sha s)
  unfolding step_extract set_state
  step_extract-Done rt paper_id sha s h =
      text-Done rt paper_id (extract_text rt (find_file sha s.files))
        (on_jobs (set_state k extracting none) s).1 (Held-set_state k extracting none s.jobs h)
