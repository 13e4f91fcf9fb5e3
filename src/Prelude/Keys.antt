-- ===== src/Prelude/Keys.antt =====
-- Sets of ids as lists: `k in ids`, and the count of candidates outside a set, the measure of a
-- graph walk.
use Prim.Native.Nat.{ℕ, suc, ◌≤◌, ◌<◌}
use mathlib.Core.Path.{◌≡◌, refl}
use mathlib.Core.Bool.{Bool, true, false, ◌||◌}
use mathlib.Core.List.{List, [], ◌∷◌, ◌++◌}
use native.Mathlib.Omega.{arith}
use mouseion.Prelude.Tests.{◌==◌, if◌then◌else◌}
use mouseion.Prelude.Lists.{length}

abbrev pub contains : ℕ → List ℕ → Bool
contains k [] = false
contains k (j ∷ l) = j == k || contains k l

pub contains-append :
    (k : ℕ) (xs ys : List ℕ) → contains k (xs ++ ys) ≡ (contains k xs || contains k ys)
contains-append k [] ys = refl
contains-append k (x ∷ xs) ys = ground (arith, contains-append k xs ys)

-- How many of `candidates` are not in `seen`.
abbrev pub unseen : List ℕ → List ℕ → ℕ
unseen [] seen = 0
unseen (c ∷ cs) seen = if contains c seen then unseen cs seen else suc (unseen cs seen)

pub unseen-le-length : (cs seen : List ℕ) → unseen cs seen ≤ length cs
unseen-le-length [] seen = omega arith
unseen-le-length (c ∷ cs) seen = ground (arith, unseen-le-length cs seen)

pub unseen-le : (cs seen : List ℕ) (k : ℕ) → unseen cs (seen ++ k ∷ []) ≤ unseen cs seen
unseen-le [] seen k = omega arith
unseen-le (c ∷ cs) seen k = ground (arith, unseen-le cs seen k, contains-append c seen (k ∷ []))

-- A new member that is a candidate lowers the count.
pub unseen-lt :
    (cs seen : List ℕ) (k : ℕ)
    → contains k cs ≡ true
    → contains k seen ≡ false
    → unseen cs (seen ++ k ∷ []) < unseen cs seen
unseen-lt [] seen k h new = cc
unseen-lt (c ∷ cs) seen k h new = ground (
  arith,
  unseen-lt cs seen k,
  unseen-le cs seen k,
  contains-append c seen (k ∷ []),
  contains-append k seen (k ∷ []),
)
