-- ===== src/Auth/Tests.antt =====
-- A request for the papers with the token of the server.
use mouseion.Prelude.{ℕ, ◌≡◌, refl, ◌⊎◌, Bool, true, false, Option, some, ◌&&◌, leb, is_empty}
use mouseion.Text.{Text, codes, strip}
use mouseion.Auth.{passed_on, type_error, is_public, extract_bearer, call}
use mouseion.Auth.Closed.{call-closed}

abbrev digit : ℕ → Bool
digit c = leb 48 c && leb c 57

abbrev header : Option Text
header = some (codes "bearer s3cret")

right_token : call digit (λ t. t) true (codes "/api/papers") (codes "s3cret") header ≡ passed_on
unfolding call is_public extract_bearer strip mouseion.Text.is_space
right_token = refl

-- A token with a letter that is not ASCII is no 401.
wrong_letters :
    call digit (λ t. t) true (codes "/api/papers") (codes "s3cret") (some (codes "bearer sécret"))
    ≡ type_error
unfolding call is_public extract_bearer strip mouseion.Text.is_space
wrong_letters = refl

call-closed_example :
    (is_public digit (λ t. t) (codes "/api/papers") ≡ true)
    ⊎ ((is_empty (codes "s3cret") ≡ false)
        × (extract_bearer digit (λ t. t) header ≡ some (codes "s3cret")))
call-closed_example =
    call-closed digit (λ t. t) (codes "/api/papers") (codes "s3cret") header right_token
