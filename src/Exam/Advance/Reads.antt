-- ===== src/Exam/Advance/Reads.antt =====
-- What the examiner reads before it writes changes no session.
use mouseion.Prelude.{ℕ, ◌≡◌, refl, ap, ◌∙◌, ◌⊎◌, inl, inr, Bool, Option, List, arith, take}
use mouseion.Text.{Text}
use mouseion.Llm.{LlmFault}
use mouseion.Effect.{
  Keeps-bind, Keeps-or_raise, Keeps-raise_if, raise_if, Result, ok, err, or_raise, ◌>>=◌,
}
use mouseion.Exam.Session.{
  material_not_found, no_tree, Turn, Sessions, ExamSession, ExamFault, ExamDb,
}
use mouseion.Exam.Ground.{
  usable_tree, readable, gather_sections, Material, Services, Settings, require_tree,
  ground_sections, plan_probes, build_verdict, from_llm,
}

-- An action that only reads.
abbrev pub Reads : {A : Type 0} → ExamDb A → Type 0
Reads {A} m = (s : Sessions) → (m s).1 ≡ s

from_llm-Reads : {A : Type 0} (r : Result LlmFault A) → Reads (from_llm r)
from_llm-Reads (ok a) s = refl
from_llm-Reads (err e) s = refl

pub or_raise-Reads : {A : Type 0} (o : Option A) (e : ExamFault) → Reads (or_raise o e)
or_raise-Reads o e s = Keeps-or_raise (λ x. x ≡ s) o e s refl

raise_if-Reads : (b : Bool) (e : ExamFault) → Reads (raise_if b e)
raise_if-Reads b e s = Keeps-raise_if (λ x. x ≡ s) b e s refl

module _ {A B : Type 0} where
  Reads-bind :
      (m : ExamDb A) (f : A → ExamDb B) → Reads m → ((a : A) → Reads (f a)) → Reads (m >>= f)
  Reads-bind m f rm rf s =
      Keeps-bind (λ x. x ≡ s) m f (λ x e. rm x ∙ e) (λ a x e. rf a x ∙ e) s refl

  -- What a read and a further action come to.
  pub read-then :
      (m : ExamDb A) (f : A → ExamDb B)
      → Reads m
      → (s : Sessions)
      → ((e : ExamFault) × ((m >>= f) s ≡ (err e, s)))
        ⊎ ((a : A) × ((m s).0 ≡ ok a) × ((m >>= f) s ≡ f a s))
  read-then m f rm s = go (m s) (rm s)
    where
      go :
          (p : Result ExamFault A × Sessions)
          → p.1 ≡ s
          → ((e : ExamFault) × (elim p.0 as (λ _. Result ExamFault B × Sessions) [
            | ok a ↦ f a p.1
            | err e ↦ (err e, p.1)
          ]
                ≡ (err e, s)))
            ⊎ ((a : A) × (p.0 ≡ ok a)
                × (elim p.0 as (λ _. Result ExamFault B × Sessions) [
                  | ok a ↦ f a p.1
                  | err e ↦ (err e, p.1)
                ]
                    ≡ f a s))
      go (ok a, s') same = inr (a, refl, ap (f a) same)
      go (err e, s') same = inl (e, ap (λ x. (err e, x)) same)

module _ (services : Services) (settings : Settings) where
  usable_tree-Reads : (titles : List Text) → Reads (usable_tree services titles)
  usable_tree-Reads titles s = ground arith

  pub require_tree-Reads : (paper : ℕ) → Reads (require_tree services paper)
  unfolding require_tree
  require_tree-Reads paper =
      Reads-bind (or_raise (services.tree_titles paper) no_tree) (usable_tree services)
        (or_raise-Reads (services.tree_titles paper) no_tree) usable_tree-Reads

  readable-Reads : (titles : List Text) (m : Material) → Reads (readable services titles m)
  readable-Reads titles m s = ground arith

  pub ground_sections-Reads : (paper : ℕ) (q : Text) → Reads (ground_sections services paper q)
  unfolding ground_sections
  ground_sections-Reads paper q =
      Reads-bind (require_tree services paper) (gather_sections services paper q)
        (require_tree-Reads paper)
        (λ titles.
          Reads-bind (or_raise (services.gather paper (take 8000 q)) material_not_found)
            (readable services titles)
            (or_raise-Reads (services.gather paper (take 8000 q)) material_not_found)
            (readable-Reads titles))

  pub plan_probes-Reads :
      (session : ExamSession) (t : Text) → Reads (plan_probes services settings session t)
  unfolding plan_probes
  plan_probes-Reads session t =
      Reads-bind (ground_sections services session.paper_id _) (λ m. from_llm _)
        (ground_sections-Reads session.paper_id _) (λ m. from_llm-Reads _)

  pub build_verdict-Reads :
      (session : ExamSession) (ts : List Turn) → Reads (build_verdict services settings session ts)
  unfolding build_verdict
  build_verdict-Reads session ts =
      Reads-bind (ground_sections services session.paper_id _) (λ m. from_llm _)
        (ground_sections-Reads session.paper_id _) (λ m. from_llm-Reads _)
