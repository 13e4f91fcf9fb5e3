-- ===== src/Llm/Complete.antt =====
-- Whatever the model answers, a returned value has passed validation, and the model is asked at most
-- as often as the number of attempts says.
use mouseion.Prelude.{
  ℕ, zero, suc, ◌+◌, ◌≤◌, ◌≡◌, Option, List, [], ◌∷◌, ◌++◌, arith, inl, inr, length, length-append,
}
use mouseion.Text.{Text}
use mouseion.Effect.{Result, ok, Result-cases}
use mouseion.Llm.{LlmFault, Retry, attempt_from, complete_json, attempts_of}

module _ {A : Type 0} (post : List Retry → Result LlmFault Text)
    (validate : Text → Result Text A) where
  -- An answer to a request, and the request it answers, with fewer retries than `n`.
  abbrev pub Answered : ℕ → A → Type 0
  Answered n a =
      (rs : List Retry) × (content : Text) × (suc (length rs) ≤ n)
      × (post rs ≡ ok content)
      × (validate content ≡ ok a)

  attempt_from-validated :
      (total left : ℕ) (rs : List Retry) (a : A)
      → attempt_from post validate total left rs ≡ ok a
      → Answered (length rs + left) a
  unfolding attempt_from
  attempt_from-validated total zero rs a h = cc
  attempt_from-validated total (suc left) rs a h = elim (Result-cases (post rs)) [
    | inr (e, failed) ↦ cc (rw (failed, attempt_from) at h)
    | inl (content, answered) ↦ elim (Result-cases (validate content)) [
      | inl (b, good) ↦ (
        rs,
        content,
        omega arith,
        answered,
        ground (arith, good, rw (answered, good, attempt_from) at h),
      )
      | inr (problem, bad) ↦
          let retry : List Retry = rs ++ record { content = content; problem = problem } ∷ [] in
          let (rs', c, few, e, v) =
            attempt_from-validated total left retry a (rw (answered, bad, attempt_from) at h) in
          (
            rs',
            c,
            omega (arith, length-append rs (record { content = content; problem = problem } ∷ [])),
            e,
            v,
          )
    ]
  ]

  -- A value that `complete_json` returns was validated, and answered one of at most as many requests
  -- as there are attempts.
  pub complete_json-validated :
      (max_attempts : Option ℕ) (default_attempts : ℕ) (a : A)
      → complete_json post validate max_attempts default_attempts ≡ ok a
      → Answered (attempts_of max_attempts default_attempts) a
  unfolding complete_json
  complete_json-validated m d a h =
      let (rs, c, few, e, v) = attempt_from-validated (attempts_of m d) (attempts_of m d) [] a h in
      (rs, c, omega arith, e, v)

  -- The first answer is returned if it validates: nothing is asked twice without need.
  pub complete_json-first :
      (max_attempts : Option ℕ) (default_attempts : ℕ) (content : Text) (a : A)
      → 1 ≤ attempts_of max_attempts default_attempts
      → post [] ≡ ok content
      → validate content ≡ ok a
      → complete_json post validate max_attempts default_attempts ≡ ok a
  unfolding complete_json attempt_from
  complete_json-first m d content a some_left e v = go (attempts_of m d) some_left
    where
      go : (n : ℕ) → 1 ≤ n → attempt_from post validate n n [] ≡ ok a
      go zero h = absurd (omega arith)
      go (suc n) h = rw (e, v, attempt_from)
