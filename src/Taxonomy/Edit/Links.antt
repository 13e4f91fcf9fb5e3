-- ===== src/Taxonomy/Edit/Links.antt =====
-- What the edits do to the links between papers and topics.
use mouseion.Prelude.{
  ℕ, ◌+◌, ◌≡◌, ◌≢◌, refl, sym, ◌∙◌, inl, inr, Bool, true, false, not, ◌||◌, ◌&&◌, Option, none,
  some, List, [], ◌∷◌, ◌++◌, arith, ◌==◌, if◌then◌else◌, Option-cases,
}
use mouseion.Prelude.Keys.{contains}
use mouseion.Effect.{ok}
use mouseion.Taxonomy.Store.{
  TopicRow, Store, ids, set_parent, move_children, children_count, find_row, has_link, papers_of,
  remove_topic_links, insert_or_ignore, update_parent, update_children, delete_row, parent_exists,
}
use mouseion.Taxonomy.Walk.{descendant_ids}
use mouseion.Taxonomy.Edit.{relink, splice, merge_steps, merge_topics, MergeResult}
use mouseion.Taxonomy.Edit.Tables.{contains-set_parent}
use mouseion.Taxonomy.Walk.Below.{parent_of, found→contains}
use mouseion.Taxonomy.Edit.Forest.{Rooted-parent, Rooted-known}
use mouseion.Taxonomy.Edit.Invariant.{IsForest, IsValid, find_row-contains, find_row→parent_of}
use mouseion.Taxonomy.Edit.Merging.{merge_steps-cases, merged, contains-merged}

pub has_link-append :
    (p u q t : ℕ) (ls : List (ℕ × ℕ))
    → has_link p u (ls ++ (q, t) ∷ []) ≡ (has_link p u ls || (q == p && t == u))
has_link-append p u q t [] = ground arith
has_link-append p u q t ((x, y) ∷ ls) = ground (arith, has_link-append p u q t ls)

pub has_link-remove_topic_links :
    (p u k : ℕ) (ls : List (ℕ × ℕ))
    → has_link p u (remove_topic_links k ls) ≡ (not (u == k) && has_link p u ls)
has_link-remove_topic_links p u k [] = ground arith
has_link-remove_topic_links p u k ((x, y) ∷ ls) =
    ground (arith, has_link-remove_topic_links p u k ls)

pub contains-papers_of :
    (p t : ℕ) (ls : List (ℕ × ℕ)) → contains p (papers_of t ls) ≡ has_link p t ls
contains-papers_of p t [] = refl
contains-papers_of p t ((x, y) ∷ ls) = ground (arith, contains-papers_of p t ls)

update_children_total :
    (k p : ℕ) (s : Store)
    → contains p (ids s.topics) ≡ true
    → (n : ℕ) × (update_children k (some p) s
        ≡ (ok n, record s { topics = move_children k (some p) s.topics }))
unfolding update_children
update_children_total k p s h = (children_count k s.topics, ground arith)

-- Every link names a paper and a topic that exist: the foreign keys of `paper_topics`.
abbrev pub LinksExist : Store → Type 0
LinksExist s =
    (p t : ℕ)
    → has_link p t s.links ≡ true
    → (contains p s.papers ≡ true) × (contains t (ids s.topics) ≡ true)

pub insert_or_ignore-link :
    (p t : ℕ) (s : Store)
    → contains p s.papers ≡ true
    → contains t (ids s.topics) ≡ true
    → (n : ℕ) × (insert_or_ignore p t s ≡ (
      ok n,
      record s { links = if has_link p t s.links then s.links else s.links ++ (p, t) ∷ [] },
    ))
unfolding insert_or_ignore
insert_or_ignore-link p t s hp ht = (if has_link p t s.links then 0 else 1, ground arith)

-- Relinking papers that exist to a topic that exists adds exactly those links.
relink_total :
    (t : ℕ) (ps : List ℕ) (s : Store)
    → ((p : ℕ) → contains p ps ≡ true → contains p s.papers ≡ true)
    → contains t (ids s.topics) ≡ true
    → (n : ℕ) × (ls : List (ℕ × ℕ)) × (relink t ps s ≡ (ok n, record s { links = ls }))
      × ((p u : ℕ) → has_link p u ls ≡ (has_link p u s.links || (u == t && contains p ps)))
unfolding relink
relink_total t [] s hp ht = (0, s.links, refl, λ p u. ground arith)
relink_total t (q ∷ ps) s hp ht =
    let (one, e) = insert_or_ignore-link q t s (hp q (ground arith)) ht in
    let s' : Store = record s {
      links = if has_link q t s.links then s.links else s.links ++ (q, t) ∷ [];
    } in
    let (more, ls, e', h) = relink_total t ps s' (λ p m. hp p (ground arith)) ht in
    (
      one + more,
      ls,
      ground (arith, e, e'),
      λ p u. ground (arith, h p u, has_link-append p u q t s.links),
    )

module _ (s : Store) (source target : ℕ) where
  -- links after a merge: those of the source have gone to the target
  abbrev pub merged_link : ℕ → ℕ → Bool
  merged_link p u =
      if u == source
      then false
      else has_link p u s.links || (u == target && has_link p source s.links)

  splice_total :
      (below : Bool) (q : Option ℕ)
      → parent_exists q s.topics ≡ true
      → (ts : List TopicRow) × (splice below target q s ≡ (ok tt, record s { topics = ts }))
        × ((j : ℕ) → contains j (ids ts) ≡ contains j (ids s.topics))
  unfolding update_parent
  splice_total true q h =
      (set_parent target q s.topics, ground arith, λ j. contains-set_parent target q j s.topics)
  splice_total false q h = (s.topics, refl, λ j. refl)

  merge_steps_total :
      (q : Option ℕ)
      → LinksExist s
      → contains target (ids s.topics) ≡ true
      → parent_exists q s.topics ≡ true
      → (x : ℕ × ℕ) × ((merge_steps source target q s).0 ≡ ok x)
        × ((p u : ℕ) → has_link p u (merge_steps source target q s).1.links ≡ merged_link p u)
  unfolding merge_steps delete_row
  merge_steps_total q links ht hq =
      let (ts, spliced, same) =
        splice_total (contains target (descendant_ids s source false)) q hq in
      let s1 : Store = record s { topics = ts } in
      let (n, ls, relinked, linked) =
        relink_total target (papers_of source s.links) s1
          (λ p m. (links p source (sym (contains-papers_of p source s.links) ∙ m)).0)
          (same target ∙ ht) in
      let (k, moved) =
        update_children_total source target (record s1 { links = ls }) (same target ∙ ht) in
      (
        (n, k),
        ground (arith, spliced, relinked, moved),
        λ p u. ground (
          arith,
          spliced,
          relinked,
          moved,
          linked p u,
          contains-papers_of p source s.links,
          has_link-remove_topic_links p u source ls,
        ),
      )

pub parent_known :
    (ts : List TopicRow) (last k : ℕ) (q : Option ℕ)
    → IsForest ts last
    → parent_of ts k ≡ some q
    → parent_exists q ts ≡ true
parent_known ts last k none f e = refl
parent_known ts last k (some p) f e =
    Rooted-known (Rooted-parent (some p) e (f.rooted k (found→contains k ts (some p) e)))

-- In a valid store, merging one existing topic into another succeeds; the source is gone, its links
-- have gone to the target, and every other link is as it was.
pub merge_topics_total :
    (s : Store) (source target : ℕ)
    → IsValid s
    → LinksExist s
    → contains source (ids s.topics) ≡ true
    → contains target (ids s.topics) ≡ true
    → source ≢ target
    → (r : MergeResult) × ((merge_topics source target s).0 ≡ ok r)
      × (contains source (ids (merge_topics source target s).1.topics) ≡ false)
      × ((p u : ℕ)
          → has_link p u (merge_topics source target s).1.links ≡ merged_link s source target p u)
unfolding merge_topics
merge_topics_total s source target v links hs ht ne =
    elim (Option-cases (find_row source s.topics)) [
      | inl missing ↦ cc (missing, hs, find_row-contains source s.topics)
      | inr (t, found) ↦
          let q : Option ℕ = t.parent_id in
          let steps = merge_steps_total s source target q links ht (
            parent_known s.topics s.last_id source q v
              (find_row→parent_of source s.topics t found)) in
          let after = merge_steps-cases s source target q steps.0 steps.1 in
          let s' : Store = (merge_steps source target q s).1 in
          let kept_id : contains target (ids s'.topics) ≡ true =
            rw after.0 (contains-merged s source target q target ∙ ground arith) in
          elim (Option-cases (find_row target s'.topics)) [
            | inl lost ↦ cc (lost, kept_id, find_row-contains target s'.topics)
            | inr (u, kept) ↦ (
              record { target = u; papers_relinked = steps.0.0; children_moved = steps.0.1 },
              ground (arith, steps.1, kept, found, find_row-contains target s.topics),
              ground
                  (arith, steps.1, kept, found, find_row-contains target s.topics, gone q after.0),
              λ p w.
                  ground
                    (arith, steps.1, kept, found, find_row-contains target s.topics, steps.2 p w),
            )
          ]
    ]
  where
    gone :
        (q : Option ℕ) {ts : List TopicRow}
        → ts ≡ merged s source target q
        → contains source (ids ts) ≡ false
    gone q e = rw e (contains-merged s source target q source ∙ ground arith)
