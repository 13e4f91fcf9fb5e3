-- ===== src/Tree/Refilled.antt =====
-- Closing the page ranges keeps the shape of the tree, and all fields of its nodes but the ends.
use mouseion.Prelude.{
  ℕ, suc, ◌≤◌, ◌≡◌, refl, sym, ap, ◌∙◌, Option, List, [], ◌∷◌, ◌++◌, arith, map, length,
  length-append,
}
use mathlib.Core.List.{append_assoc, append-nil}
use mouseion.Text.{Text}
use mouseion.Tree.{NodeInfo, Nodes, node, nil, cons, flatten}
use mouseion.Tree.Outline.{close_from, ends_of, sorted_from, refill, close_page_ranges}

-- the fields of a node that closing the page ranges leaves alone
pub record Heading : Type 0 where
  pub node_id : Text
  pub title : Text
  pub level : ℕ
  pub start_page : Option ℕ

abbrev pub heading_of : NodeInfo → Heading
heading_of n = record {
  node_id = n.node_id;
  title = n.title;
  level = n.level;
  start_page = n.start_page;
}

-- the depths of the nodes, in the order of the tree
unfoldable pub depths : ℕ → Nodes → List ℕ
depths d nil = []
depths d (cons (node i children) rest) = d ∷ depths (suc d) children ++ depths d rest

length-refill :
    (ns : Nodes) (infos : List NodeInfo)
    → length (flatten (refill ns infos).0) ≡ length (flatten ns)
unfolding refill flatten
length-refill nil infos = refl
length-refill (cons (node i children) rest) [] = refl
length-refill (cons (node i children) rest) (j ∷ infos) =
    let below : Nodes × List NodeInfo = refill children infos in
    let after : Nodes × List NodeInfo = refill rest below.1 in
    omega (
      arith,
      length-append (flatten below.0) (flatten after.0),
      length-append (flatten children) (flatten rest),
      length-refill children infos,
      length-refill rest below.1,
    )

refill-append :
    (ns : Nodes) (infos : List NodeInfo)
    → length (flatten ns) ≤ length infos
    → flatten (refill ns infos).0 ++ (refill ns infos).1 ≡ infos
unfolding refill flatten
refill-append nil infos enough = refl
refill-append (cons (node i children) rest) [] enough = absurd (omega (arith, enough))
refill-append (cons (node i children) rest) (j ∷ infos) enough =
    let below : Nodes × List NodeInfo = refill children infos in
    let after : Nodes × List NodeInfo = refill rest below.1 in
    let first : length (flatten children) ≤ length infos =
      omega (arith, enough, length-append (flatten children) (flatten rest)) in
    let whole : flatten below.0 ++ below.1 ≡ infos = refill-append children infos first in
    let second : length (flatten rest) ≤ length below.1 = omega (
      arith,
      enough,
      length-append (flatten children) (flatten rest),
      length-append (flatten below.0) below.1,
      length-refill children infos,
      ap length whole,
    ) in
    ap (λ l. j ∷ l)
      (append_assoc (flatten below.0) (flatten after.0) after.1
        ∙ (ap (λ l. flatten below.0 ++ l) (refill-append rest below.1 second) ∙ whole))

-- A tree that is refilled with as many nodes as it has lists those.
flatten-refill :
    (ns : Nodes) (infos : List NodeInfo)
    → length infos ≡ length (flatten ns)
    → flatten (refill ns infos).0 ≡ infos
flatten-refill ns infos same =
    let all : flatten (refill ns infos).0 ++ (refill ns infos).1 ≡ infos =
      refill-append ns infos (omega (arith, same)) in
    none_left (flatten (refill ns infos).0) (refill ns infos).1 all (
      omega (
        arith,
        length-append (flatten (refill ns infos).0) (refill ns infos).1,
        length-refill ns infos,
        same,
        ap length all,
      ))
  where
    none_left : (xs ys : List NodeInfo) → xs ++ ys ≡ infos → length ys ≡ 0 → xs ≡ infos
    none_left xs [] e z = sym (append-nil xs) ∙ e
    none_left xs (y ∷ ys) e z = absurd (omega (arith, z))

length-close_from :
    (i : ℕ) (ends : List (ℕ × ℕ)) (ns : List NodeInfo) → length (close_from i ends ns) ≡ length ns
unfolding close_from
length-close_from i ends [] = refl
length-close_from i ends (n ∷ ns) = omega (arith, length-close_from (suc i) ends ns)

heading-close_from :
    (i : ℕ) (ends : List (ℕ × ℕ)) (ns : List NodeInfo)
    → map heading_of (close_from i ends ns) ≡ map heading_of ns
unfolding close_from
heading-close_from i ends [] = refl
heading-close_from i ends (n ∷ ns) = ap (λ l. heading_of n ∷ l) (heading-close_from (suc i) ends ns)

pub heading-close_page_ranges :
    (ns : Nodes) → map heading_of (flatten (close_page_ranges ns)) ≡ map heading_of (flatten ns)
unfolding close_page_ranges
heading-close_page_ranges ns =
    let ends : List (ℕ × ℕ) = ends_of (sorted_from 0 (flatten ns)) in
    ap (map heading_of)
      (flatten-refill ns (close_from 0 ends (flatten ns)) (length-close_from 0 ends (flatten ns)))
    ∙ heading-close_from 0 ends (flatten ns)

depths-refill :
    (d : ℕ) (ns : Nodes) (infos : List NodeInfo) → depths d (refill ns infos).0 ≡ depths d ns
unfolding refill depths
depths-refill d nil infos = refl
depths-refill d (cons (node i children) rest) [] = refl
depths-refill d (cons (node i children) rest) (j ∷ infos) =
    let below : Nodes × List NodeInfo = refill children infos in
    ap (λ l. d ∷ l ++ depths d (refill rest below.1).0) (depths-refill (suc d) children infos)
    ∙ ap (λ l. d ∷ depths (suc d) children ++ l) (depths-refill d rest below.1)

pub depths-close_page_ranges : (d : ℕ) (ns : Nodes) → depths d (close_page_ranges ns) ≡ depths d ns
unfolding close_page_ranges
depths-close_page_ranges d ns =
    depths-refill d ns (close_from 0 (ends_of (sorted_from 0 (flatten ns))) (flatten ns))
