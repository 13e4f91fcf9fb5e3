-- ===== src/Auth.antt =====
-- backend/src/mouseion/auth.py: which requests pass the bearer-token middleware.
pub mod Closed
mod Tests
use mouseion.Prelude.{
  ℕ, Bool, true, false, not, ◌&&◌, ◌||◌, Option, none, some, List, [], ◌∷◌, ◌==◌, any, leb,
  if◌then◌else◌, is_empty,
}
use mouseion.Text.{Text, codes, text_eq, strip}

abbrev pub public_paths : List Text
public_paths =
    codes "/health"
    ∷ codes "/"
    ∷ codes "/index.html"
    ∷ codes "/favicon.ico"
    ∷ codes "/taxonomy"
    ∷ []

-- `s.startswith(prefix)`, as what follows the prefix
abbrev pub after_prefix : Text → Text → Option Text
after_prefix [] t = some t
after_prefix (c ∷ w) [] = none
after_prefix (c ∷ w) (d ∷ t) = if c == d then after_prefix w t else none

abbrev pub has_prefix : Option Text → Bool
has_prefix none = false
has_prefix (some t) = true

-- `header.partition(" ")`, without the separator
abbrev pub scheme_of : Text → Text
scheme_of [] = []
scheme_of (c ∷ t) = let rest = scheme_of t in if c == 32 then [] else c ∷ rest

abbrev pub token_of : Text → Text
token_of [] = []
token_of (c ∷ t) = let rest = token_of t in if c == 32 then t else rest

abbrev pub is_ascii : Text → Bool
is_ascii [] = true
is_ascii (c ∷ t) = leb c 127 && is_ascii t

-- what the middleware does with a request; `compare_digest` raises on a string that is not ASCII
pub data Reply : Type 0 where
  passed_on status_503 status_401 type_error : Reply

-- `is_digit` says what `\d` matches, and `lower` is that of `str`.
module _ (is_digit : ℕ → Bool) (lower : Text → Text) where
  -- `\d*$`, where `$` also stands before a line feed at the end
  abbrev pub digits_end : Text → Bool
  digits_end [] = true
  digits_end (c ∷ t) = (is_digit c && digits_end t) || (c == 10 && is_empty t)

  -- `^/papers/\d+$`
  abbrev pub is_paper_rest : Option Text → Bool
  is_paper_rest none = false
  is_paper_rest (some []) = false
  is_paper_rest (some (c ∷ t)) = is_digit c && digits_end t

  unfoldable pub is_public : Text → Bool
  is_public path =
      any (text_eq path) public_paths
      || (has_prefix (after_prefix (codes "/static/") path)
          || is_paper_rest (after_prefix (codes "/papers/") path))

  unfoldable pub extract_bearer : Option Text → Option Text
  extract_bearer none = none
  extract_bearer (some header) =
      if is_empty header
      then none
      else if not (text_eq (lower (scheme_of header)) (codes "bearer"))
          || is_empty (strip (token_of header))
      then none
      else some (strip (token_of header))

  abbrev pub check_token : Text → Option Text → Reply
  check_token expected none = status_401
  check_token expected (some presented) =
      if not (is_ascii presented && is_ascii expected)
      then type_error
      else if text_eq presented expected
      then passed_on
      else status_401

  -- `BearerAuthMiddleware.__call__`, where `expected` is the token of the settings
  unfoldable pub call : Bool → Text → Text → Option Text → Reply
  call is_http path expected header =
      if not is_http
      then passed_on
      else if is_public path
      then passed_on
      else if is_empty expected
      then status_503
      else check_token expected (extract_bearer header)
