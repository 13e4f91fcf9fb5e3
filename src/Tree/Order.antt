-- ===== src/Tree/Order.antt =====
-- The tree of an outline: its nodes in order, and what each stands below.
use mouseion.Prelude.{
  ℕ, zero, suc, ◌+◌, ◌-◌, ◌≤◌, ◌≡◌, refl, sym, ap, ◌∙◌, Bool-cases, inl, inr, true, false, some,
  List, [], ◌∷◌, ◌++◌, arith, leb, ltb, map, length, length-append, if◌then◌else◌,
}
use mathlib.Core.List.{append_assoc, append-nil, map-append}
use mouseion.Text.{Text, codes}
use mouseion.Tree.{NodeInfo, Nodes, node, nil, cons, flatten}
use mouseion.Tree.Outline.{
  OutlineEntry, Ref, append_child, count_children, Open, pop_open, top_ref, outline_node, place_all,
  from_outline,
}
use mouseion.Tree.Refilled.{
  Heading, heading_of, depths, heading-close_page_ranges, depths-close_page_ranges,
}

-- The reference names the last node of the last node ...
abbrev OnLast : Ref → Nodes → Type 0
OnLast [] ns = Unit
OnLast (n ∷ ref) nil = ⊥
OnLast (zero ∷ ref) (cons (node i children) nil) = OnLast ref children
OnLast (zero ∷ ref) (cons t (cons u rest)) = ⊥
OnLast (suc n ∷ ref) (cons t rest) = OnLast (n ∷ ref) rest

-- A node that is put below such a node is the last of the tree.
flatten-append_child :
    (ref : Ref) (x : NodeInfo) (ns : Nodes)
    → OnLast ref ns
    → flatten (append_child ref x ns) ≡ flatten ns ++ x ∷ []
unfolding append_child flatten
flatten-append_child [] x nil h = refl
flatten-append_child [] x (cons (node i children) rest) h =
    ap (λ l. i ∷ flatten children ++ l) (flatten-append_child [] x rest tt)
    ∙ ap (λ l. i ∷ l) (sym (append_assoc (flatten children) (flatten rest) (x ∷ [])))
flatten-append_child (n ∷ ref) x nil h = absurd h
flatten-append_child (zero ∷ ref) x (cons (node i children) nil) h =
    ap (λ l. i ∷ l)
      (append-nil (flatten (append_child ref x children))
        ∙ (flatten-append_child ref x children h
            ∙ ap (λ l. l ++ x ∷ []) (sym (append-nil (flatten children)))))
flatten-append_child (zero ∷ ref) x (cons t (cons u rest)) h = absurd h
flatten-append_child (suc n ∷ ref) x (cons (node i children) rest) h =
    ap (λ l. i ∷ flatten children ++ l) (flatten-append_child (n ∷ ref) x rest h)
    ∙ ap (λ l. i ∷ l) (sym (append_assoc (flatten children) (flatten rest) (x ∷ [])))

depths-append_child :
    (d : ℕ) (ref : Ref) (x : NodeInfo) (ns : Nodes)
    → OnLast ref ns
    → depths d (append_child ref x ns) ≡ depths d ns ++ (d + length ref) ∷ []
unfolding append_child depths
depths-append_child d [] x nil h = ap (λ n. n ∷ []) (omega arith)
depths-append_child d [] x (cons (node i children) rest) h =
    ap (λ l. d ∷ depths (suc d) children ++ l) (depths-append_child d [] x rest tt)
    ∙ ap (λ l. d ∷ l) (sym (append_assoc (depths (suc d) children) (depths d rest) _))
depths-append_child d (n ∷ ref) x nil h = absurd h
depths-append_child d (zero ∷ ref) x (cons (node i children) nil) h =
    ap (λ l. d ∷ l)
      (append-nil (depths (suc d) (append_child ref x children))
        ∙ (depths-append_child (suc d) ref x children h
            ∙ (ap (λ n. depths (suc d) children ++ n ∷ []) (omega arith)
                ∙ ap (λ l. l ++ (d + length (zero ∷ ref)) ∷ [])
                    (sym (append-nil (depths (suc d) children))))))
depths-append_child d (zero ∷ ref) x (cons t (cons u rest)) h = absurd h
depths-append_child d (suc n ∷ ref) x (cons (node i children) rest) h =
    ap (λ l. d ∷ depths (suc d) children ++ l) (depths-append_child d (n ∷ ref) x rest h)
    ∙ ap (λ l. d ∷ l) (sym (append_assoc (depths (suc d) children) (depths d rest) _))

-- The new node is on the last way, and so are those above it.
new-OnLast :
    (ref : Ref) (x : NodeInfo) (ns : Nodes)
    → OnLast ref ns
    → OnLast (ref ++ count_children ref ns ∷ []) (append_child ref x ns)
unfolding append_child count_children
new-OnLast [] x nil h = tt
new-OnLast [] x (cons t rest) h = new-OnLast [] x rest tt
new-OnLast (n ∷ ref) x nil h = absurd h
new-OnLast (zero ∷ ref) x (cons (node i children) nil) h = new-OnLast ref x children h
new-OnLast (zero ∷ ref) x (cons t (cons u rest)) h = absurd h
new-OnLast (suc n ∷ ref) x (cons t rest) h = new-OnLast (n ∷ ref) x rest h

append_child-OnLast :
    (ref q : Ref) (x : NodeInfo) (ns : Nodes)
    → OnLast ref ns
    → OnLast q ns
    → length q ≤ length ref
    → OnLast q (append_child ref x ns)
unfolding append_child
append_child-OnLast ref [] x ns h h' le = tt
append_child-OnLast [] (m ∷ q) x ns h h' le = absurd (omega (arith, le))
append_child-OnLast (n ∷ ref) (m ∷ q) x nil h h' le = absurd h
append_child-OnLast (zero ∷ ref) (zero ∷ q) x (cons (node i children) nil) h h' le =
    append_child-OnLast ref q x children h h' (omega (arith, le))
append_child-OnLast (zero ∷ ref) (suc m ∷ q) x (cons (node i children) nil) h h' le = absurd h'
append_child-OnLast (zero ∷ ref) (m ∷ q) x (cons t (cons u rest)) h h' le = absurd h
append_child-OnLast (suc n ∷ ref) (zero ∷ q) x (cons t nil) h h' le = absurd h
append_child-OnLast (suc n ∷ ref) (zero ∷ q) x (cons t (cons u rest)) h h' le = absurd h'
append_child-OnLast (suc n ∷ ref) (suc m ∷ q) x (cons t rest) h h' le =
    append_child-OnLast (n ∷ ref) (m ∷ q) x rest h h' le

-- The stack holds the last way from the top down.
abbrev LastWay : List Open → Nodes → Type 0
LastWay [] ns = Unit
LastWay (top ∷ stack) ns = (length top.0 ≡ suc (length stack)) × OnLast top.0 ns × LastWay stack ns

top-OnLast :
    (stack : List Open) (ns : Nodes)
    → LastWay stack ns
    → (length (top_ref stack) ≡ length stack) × OnLast (top_ref stack) ns
top-OnLast [] ns h = (refl, tt)
top-OnLast (top ∷ stack) ns h = (h.0, h.1)

pop_open-LastWay :
    (level : ℕ) (stack : List Open) (ns : Nodes)
    → LastWay stack ns
    → LastWay (pop_open level stack) ns
unfolding pop_open
pop_open-LastWay level [] ns h = tt
pop_open-LastWay level (top ∷ stack) ns h =
    elim (leb level top.1) as (λ b. LastWay (if b then pop_open level stack else top ∷ stack) ns) [
      | true ↦ pop_open-LastWay level stack ns h.2
      | false ↦ h
    ]

append_child-LastWay :
    (ref : Ref) (x : NodeInfo) (stack : List Open) (ns : Nodes)
    → OnLast ref ns
    → length stack ≤ length ref
    → LastWay stack ns
    → LastWay stack (append_child ref x ns)
append_child-LastWay ref x [] ns h le s = tt
append_child-LastWay ref x (top ∷ stack) ns h le s = (
  s.0,
  append_child-OnLast ref top.0 x ns h s.1 (omega (arith, le, s.0)),
  append_child-LastWay ref x stack ns h (omega (arith, le)) s.2,
)

pop_open-pop_open :
    (level l : ℕ) (stack : List Open)
    → leb level l ≡ true
    → pop_open level (pop_open l stack) ≡ pop_open level stack
unfolding pop_open
pop_open-pop_open level l [] le = refl
pop_open-pop_open level l (top ∷ stack) le = ground (arith, le, pop_open-pop_open level l stack le)

-- how deep a node of the level stands, by the levels before it, the last first: below the last node
-- of a lower level, if there is one
abbrev pub depth_below : ℕ → List ℕ → ℕ
depth_below level [] = 0
depth_below level (l ∷ before) =
    if ltb l level then suc (depth_below l before) else depth_below level before

abbrev pub entry_depths : List ℕ → List OutlineEntry → List ℕ
entry_depths before [] = []
entry_depths before (entry ∷ outline) =
    depth_below (entry.level - 1) before ∷ entry_depths ((entry.level - 1) ∷ before) outline

-- The stack knows the depths.
abbrev Measures : List Open → List ℕ → Type 0
Measures stack before = (level : ℕ) → length (pop_open level stack) ≡ depth_below level before

Measures-step :
    (ref : Ref) (l : ℕ) (stack : List Open) (before : List ℕ)
    → Measures stack before
    → Measures ((ref, l) ∷ pop_open l stack) (l ∷ before)
unfolding pop_open
Measures-step ref l stack before m level = elim (Bool-cases (leb level l)) [
  | inl le ↦ ground (arith, le, pop_open-pop_open level l stack le, m level)
  | inr gt ↦ ground (arith, gt, m l)
]

module _ (str : ℕ → Text) where
  -- what the node of an entry has, numbered from `index`
  abbrev pub entry_headings : ℕ → List OutlineEntry → List Heading
  entry_headings index [] = []
  entry_headings index (entry ∷ outline) =
      record {
        node_id = codes "n" ++ str index;
        title = entry.title;
        level = entry.level - 1;
        start_page = some entry.page;
      }
      ∷ entry_headings (suc index) outline

  abbrev Placed : ℕ → List ℕ → List OutlineEntry → Nodes → Nodes → Type 0
  Placed index before outline roots placed =
      (map heading_of (flatten placed)
        ≡ map heading_of (flatten roots) ++ entry_headings index outline)
      × (depths 0 placed ≡ depths 0 roots ++ entry_depths before outline)

  place_all-Placed :
      (index : ℕ) (outline : List OutlineEntry) (stack : List Open) (before : List ℕ)
      (roots : Nodes)
      → Measures stack before
      → LastWay stack roots
      → Placed index before outline roots (place_all str index outline stack roots)
  unfolding place_all
  place_all-Placed index [] stack before roots m w =
      (sym (append-nil (map heading_of (flatten roots))), sym (append-nil (depths 0 roots)))
  place_all-Placed index (entry ∷ outline) stack before roots m w =
      let l : ℕ = entry.level - 1 in
      let popped : List Open = pop_open l stack in
      let ref : Ref = top_ref popped in
      let x : NodeInfo = outline_node str index entry in
      let way : LastWay popped roots = pop_open-LastWay l stack roots w in
      let top : (length ref ≡ length popped) × OnLast ref roots = top-OnLast popped roots way in
      let new : Ref = ref ++ count_children ref roots ∷ [] in
      let depth : length ref ≡ depth_below l before = top.0 ∙ m l in
      let rest : Placed (suc index) (l ∷ before) outline (append_child ref x roots)
          (place_all str (suc index) outline ((new, l) ∷ popped) (append_child ref x roots)) =
        place_all-Placed (suc index) outline ((new, l) ∷ popped) (l ∷ before)
          (append_child ref x roots) (Measures-step new l stack before m)
          (
            omega (arith, length-append ref (count_children ref roots ∷ []), top.0),
            new-OnLast ref x roots top.1,
            append_child-LastWay ref x popped roots top.1 (omega (arith, top.0)) way,
          ) in
      (
        rest.0
            ∙ (ap (λ l'. map heading_of l' ++ entry_headings (suc index) outline)
                  (flatten-append_child ref x roots top.1)
                ∙ (ap (λ l'. l' ++ entry_headings (suc index) outline)
                      (map-append heading_of (flatten roots) (x ∷ []))
                    ∙ append_assoc (map heading_of (flatten roots)) (heading_of x ∷ [])
                        (entry_headings (suc index) outline))),
        rest.1
            ∙ (ap (λ l'. l' ++ entry_depths (l ∷ before) outline)
                  (depths-append_child 0 ref x roots top.1
                    ∙ ap (λ n. depths 0 roots ++ n ∷ []) (omega (arith, depth)))
                ∙ append_assoc (depths 0 roots) (depth_below l before ∷ [])
                    (entry_depths (l ∷ before) outline)),
      )

  -- The tree of an outline has one node for each entry, in the order of the entries, with the number,
  -- the title, the page and the level (one less, and not below 0) that the entry gives; and each node
  -- stands below the last one before it whose level is lower, or is a root where there is none. This
  -- holds however the levels go up and down.
  pub from_outline-order :
      (outline : List OutlineEntry)
      → (map heading_of (flatten (from_outline str outline)) ≡ entry_headings 0 outline)
        × (depths 0 (from_outline str outline) ≡ entry_depths [] outline)
  unfolding from_outline flatten pop_open depths
  from_outline-order outline =
      let placed : Placed 0 [] outline nil (place_all str 0 outline [] nil) =
        place_all-Placed 0 outline [] [] nil (λ level. refl) tt in
      (
        heading-close_page_ranges (place_all str 0 outline [] nil) ∙ placed.0,
        depths-close_page_ranges 0 (place_all str 0 outline [] nil) ∙ placed.1,
      )
