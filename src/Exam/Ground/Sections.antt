-- ===== src/Exam/Ground/Sections.antt =====
-- The probes and the verdict that the examiner gets name sections of the paper's own tree.
use mouseion.Prelude.{
  ℕ, ◌≤◌, ◌≡◌, sym, ap, subst, ◌∙◌, inl, inr, Bool, true, false, not, ◌&&◌, none, some, List, [],
  ◌∷◌, map, arith, any, All, take, is_empty, length, keep, Bool-cases, Option-cases, List-cases,
}
use mouseion.Text.{Text, text_eq, text_eq_iff, strip}
use mouseion.Effect.{Result, ok, err, ok_inj, or_raise}
use mouseion.Llm.{LlmFault}
use mouseion.Llm.Complete.{complete_json-validated}
use mouseion.Exam.Schema.{
  ExamProbe, ExamVerdict, Problem, member, references, validate_plan, validate_verdict,
}
use mouseion.Exam.Schema.Valid.{Offered, validate_plan-grounded, validate_verdict-grounded}
use mouseion.Exam.Session.{Turn, Sessions, ExamSession, material_not_found}
use mouseion.Exam.Ground.{
  Services, Settings, SectionGrounding, Material, reported, then_validate, from_llm, require_tree,
  actual_sections, readable, gather_sections, ground_sections, section_names, probe_question,
  transcript_query, complete_plan, plan_probes, complete_verdict, build_verdict,
}
use mouseion.Exam.Advance.Reads.{
  read-then, or_raise-Reads, require_tree-Reads, ground_sections-Reads,
}

from_llm-ok :
    {A : Type 0} (r : Result LlmFault A) (s : Sessions) (a : A) → (from_llm r s).0 ≡ ok a → r ≡ ok a
from_llm-ok (ok x) s a h = ap ok (ok_inj x a h)
from_llm-ok (err e) s a h = cc

then_validate-ok :
    {A B : Type 0} (report : Problem → Text) (r : Result Text A) (f : A → Result Problem B) (b : B)
    → then_validate r (λ x. reported report (f x)) ≡ ok b
    → (a : A) × (f a ≡ ok b)
then_validate-ok report (err e) f b h = cc
then_validate-ok report (ok a) f b h = (a, go (f a) h)
  where
    go : (p : Result Problem _) → reported report p ≡ ok b → p ≡ ok b
    go (ok x) e = ap ok (ok_inj x b e)
    go (err x) e = cc

-- a member of a filtered list is one of the list
member-keep :
    (p : Text → Bool) (x : Text) (xs : List Text) → member x (keep p xs) ≡ true → member x xs ≡ true
member-keep p x [] h = h
member-keep p x (y ∷ xs) h = ground (arith, h, member-keep p x xs)

-- what is among the names of known sections is known
member-known :
    (known : List Text) (x : Text) (sections : List SectionGrounding)
    → All (λ g. member g.section known ≡ true) sections
    → member x (map (λ g. g.section) sections) ≡ true
    → member x known ≡ true
member-known known x [] all h = cc
member-known known x (g ∷ gs) (here, all) h = elim (Bool-cases (text_eq x g.section)) [
  | inl same ↦ rw ((text_eq_iff x g.section).0 same) here
  | inr other ↦ member-known known x gs all (rw other at h)
]

known_sections :
    (known : List Text) (gs : List SectionGrounding)
    → All
        (λ g. member g.section known ≡ true)
        (keep (λ g. member g.section known && not (is_empty (strip g.text))) gs)
known_sections known [] = tt
known_sections known (g ∷ gs) =
    elim (Bool-cases (member g.section known && not (is_empty (strip g.text)))) [
      | inl kept ↦ rw kept (ground arith, known_sections known gs)
      | inr out ↦ rw out (known_sections known gs)
    ]

module _ (services : Services) where
  -- Material in which every section is one of the paper's tree.
  abbrev pub FromTree : ℕ → Material → Type 0
  FromTree paper m =
      (titles : List Text) × (services.tree_titles paper ≡ some titles)
      × (is_empty m.sections ≡ false)
      × ((x : Text)
          → member x (section_names services m) ≡ true
          → member x (map strip titles) ≡ true)

  -- `_require_tree` returns the titles of the tree.
  require_tree-ok :
      (paper : ℕ) (s : Sessions) (titles : List Text)
      → (require_tree services paper s).0 ≡ ok titles
      → services.tree_titles paper ≡ some titles
  unfolding require_tree
  require_tree-ok paper s titles h = elim (Option-cases (services.tree_titles paper)) [
    | inl none_there ↦ cc (rw (none_there, require_tree) at h)
    | inr (ts, there) ↦ ground (arith, there, h)
  ]

  readable-ok :
      (titles : List Text) (s : Sessions) (mat m : Material)
      → (readable services titles mat s).0 ≡ ok m
      → (is_empty m.sections ≡ false) × (m.sections ≡ actual_sections services titles mat.sections)
  readable-ok titles s mat m h = ground (arith, h)

  ground_sections-FromTree :
      (settings : Settings) (paper : ℕ) (q : Text) (s : Sessions) (m : Material)
      → (ground_sections services paper q s).0 ≡ ok m
      → FromTree paper m
  unfolding ground_sections
  ground_sections-FromTree settings paper q s m h =
      elim (read-then (require_tree services paper) (gather_sections services paper q)
        (require_tree-Reads services settings paper) s) [
          | inl (e, eq) ↦ cc (h, ap (λ p. p.0) eq)
          | inr (titles, got, eq) ↦
              elim (read-then (or_raise (services.gather paper (take 8000 q)) material_not_found)
                (readable services titles)
                (or_raise-Reads (services.gather paper (take 8000 q)) material_not_found) s) [
                  | inl (e, eq') ↦ cc (h, ap (λ p. p.0) (eq ∙ eq'))
                  | inr (mat, got', eq') ↦
                      let (some_there, same) =
                        readable-ok titles s mat m (sym (ap (λ p. p.0) (eq ∙ eq')) ∙ h) in
                      (
                        titles,
                        require_tree-ok paper s titles got,
                        some_there,
                        λ x mem.
                            member-keep (λ t. not (is_empty t)) x (map strip titles)
                              (member-known _ x m.sections
                                (subst
                                  (λ gs.
                                    All
                                      (λ g.
                                        member g.section
                                          (keep (λ t. not (is_empty t)) (map strip titles))
                                        ≡ true)
                                      gs)
                                  (sym same)
                                  (known_sections (keep (λ t. not (is_empty t)) (map strip titles))
                                    mat.sections))
                                mem),
                      )
                ]
        ]

-- Some section is offered, in the form that the validators read.
offered-cons :
    (services : Services) (m : Material)
    → is_empty m.sections ≡ false
    → (a : Text) × (others : List Text) × (section_names services m ≡ a ∷ others)
offered-cons services m h = elim (List-cases m.sections) [
  | inl gone ↦ cc (rw gone at h)
  | inr (g, gs, there) ↦ (g.section, map (λ x. x.section) gs, ap (map (λ x. x.section)) there)
]

Offered-known :
    (allowed known xs : List Text)
    → ((x : Text) → member x allowed ≡ true → member x known ≡ true)
    → Offered allowed xs
    → Offered known xs
Offered-known allowed known [] sub all = tt
Offered-known allowed known (x ∷ xs) sub (here, all) =
    (sub x here, Offered-known allowed known xs sub all)

module _ (services : Services) (settings : Settings) (m : Material)
    (some_there : is_empty m.sections ≡ false) where
  complete_plan-grounded :
      (explanation : Text) (probes : List ExamProbe)
      → complete_plan services settings explanation m ≡ ok probes
      → (2 ≤ length probes)
        × (length probes ≤ 3)
        × (any (λ p. p.targets_gap) probes ≡ true)
        × Offered (section_names services m) (map (λ p. p.section) probes)
  unfolding complete_plan
  complete_plan-grounded explanation probes h =
      let (rs, content, few, asked, valid) =
        complete_json-validated _ _ none settings.llm_max_attempts probes h in
      let (raw, fits) =
        then_validate-ok services.report (services.decode_probes content)
          (validate_plan (section_names services m)) probes valid in
      let (a, others, there) = offered-cons services m some_there in
      subst
        (λ l.
          (2 ≤ length probes)
          × (length probes ≤ 3)
          × (any (λ p. p.targets_gap) probes ≡ true)
          × Offered l (map (λ p. p.section) probes))
        (sym there)
        (validate_plan-grounded a others raw probes
          (subst (λ l. validate_plan l raw ≡ ok probes) there fits))

  complete_verdict-grounded :
      (transcript : List Turn) (v : ExamVerdict)
      → complete_verdict services settings transcript m ≡ ok v
      → Offered (section_names services m) (references v)
  unfolding complete_verdict
  complete_verdict-grounded transcript v h =
      let (rs, content, few, asked, valid) =
        complete_json-validated _ _ none settings.llm_max_attempts v h in
      let (raw, fits) =
        then_validate-ok services.report (services.decode_verdict content)
          (validate_verdict (section_names services m)) v valid in
      let (a, others, there) = offered-cons services m some_there in
      subst (λ l. Offered l (references v)) (sym there)
        (validate_verdict-grounded a others raw v
          (subst (λ l. validate_verdict l raw ≡ ok v) there fits))

module _ (services : Services) (settings : Settings) (session : ExamSession) (s : Sessions) where
  -- A plan of probes that the examiner accepts has two or three probes, targets a gap, and each probe
  -- names a section of the tree of the paper.
  pub plan_probes-grounded :
      (explanation : Text) (probes : List ExamProbe)
      → (plan_probes services settings session explanation s).0 ≡ ok probes
      → (titles : List Text) × (services.tree_titles session.paper_id ≡ some titles)
        × (2 ≤ length probes)
        × (length probes ≤ 3)
        × (any (λ p. p.targets_gap) probes ≡ true)
        × Offered (map strip titles) (map (λ p. p.section) probes)
  unfolding plan_probes
  plan_probes-grounded explanation probes h =
      elim (read-then
        (ground_sections services session.paper_id (probe_question services explanation))
        (λ m. from_llm (complete_plan services settings explanation m))
        (ground_sections-Reads services settings session.paper_id
          (probe_question services explanation))
        s) [
          | inl (e, eq) ↦ cc (h, ap (λ p. p.0) eq)
          | inr (m, got, eq) ↦
              let (titles, tree, some_there, known) =
                ground_sections-FromTree services settings session.paper_id _ s m got in
              let (two, three, gap, offered) =
                complete_plan-grounded services settings m some_there explanation probes (
                  from_llm-ok (complete_plan services settings explanation m) s probes
                    (sym (ap (λ p. p.0) eq) ∙ h)) in
              (titles, tree, two, three, gap, Offered-known _ (map strip titles) _ known offered)
        ]

  -- The sections that an accepted verdict names, in its misconceptions and for rereading, are
  -- sections of the tree of the paper.
  pub build_verdict-grounded :
      (transcript : List Turn) (v : ExamVerdict)
      → (build_verdict services settings session transcript s).0 ≡ ok v
      → (titles : List Text) × (services.tree_titles session.paper_id ≡ some titles)
        × Offered (map strip titles) (references v)
  unfolding build_verdict
  build_verdict-grounded transcript v h =
      elim (read-then
        (ground_sections services session.paper_id (transcript_query services transcript))
        (λ m. from_llm (complete_verdict services settings transcript m))
        (ground_sections-Reads services settings session.paper_id
          (transcript_query services transcript))
        s) [
          | inl (e, eq) ↦ cc (h, ap (λ p. p.0) eq)
          | inr (m, got, eq) ↦
              let (titles, tree, some_there, known) =
                ground_sections-FromTree services settings session.paper_id _ s m got in
              (
                titles,
                tree,
                Offered-known _ (map strip titles) _ known (
                    complete_verdict-grounded services settings m some_there transcript v (
                      from_llm-ok (complete_verdict services settings transcript m) s v
                        (sym (ap (λ p. p.0) eq) ∙ h))),
              )
        ]
