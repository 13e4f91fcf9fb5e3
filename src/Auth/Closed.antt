-- ===== src/Auth/Closed.antt =====
-- The middleware fails closed.
use mouseion.Prelude.{
  ℕ, ◌≡◌, ◌⊎◌, inl, inr, Bool, true, false, Option, none, some, arith, is_empty, Bool-cases,
}
use mouseion.Text.{Text, text_eq_iff}
use mouseion.Auth.{passed_on, is_public, extract_bearer, check_token, call}

module _ (is_digit : ℕ → Bool) (lower : Text → Text) where
  check_token-passed :
      (expected : Text) (o : Option Text)
      → check_token is_digit lower expected o ≡ passed_on
      → o ≡ some expected
  check_token-passed expected none h = cc
  check_token-passed expected (some presented) h = ground (arith, h, text_eq_iff presented expected)

  -- An HTTP request that is passed on has a public path, or a token is configured and the request
  -- presents that token.
  pub call-closed :
      (path expected : Text) (header : Option Text)
      → call is_digit lower true path expected header ≡ passed_on
      → (is_public is_digit lower path ≡ true)
        ⊎ ((is_empty expected ≡ false) × (extract_bearer is_digit lower header ≡ some expected))
  unfolding call
  call-closed path expected header h = elim (Bool-cases (is_public is_digit lower path)) [
    | inl open_path ↦ inl open_path
    | inr shut ↦ elim (Bool-cases (is_empty expected)) [
      | inl unset ↦ cc (rw (shut, unset, call) at h)
      | inr set ↦ inr (
        set,
        check_token-passed expected (extract_bearer is_digit lower header)
            (rw (shut, set, call) at h),
      )
    ]
  ]
