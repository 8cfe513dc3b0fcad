-- ===== src/Radix/Totals.antt =====
-- Sums over the nodes of a tree: how an insertion and a walk change them.
use free_token_intel.Prelude.{
  ℕ, ◌+◌, ◌<◌, ◌≡◌, refl, ap, ◌∙◌, inl, inr, List, [], arith, ◌==◌, Bool-cases, length, drop,
}
use free_token_intel.Align.{align_down}
use free_token_intel.Radix.{
  Node, Forest, bare, node, compare_key, same_page, split_at, tree_walk, add_child,
}
use free_token_intel.Radix.View.{IsTree, Place, place, prefix_node, suffix_node}
use free_token_intel.Radix.Walk.{walk_beside, walk_inside, walk_below}
use free_token_intel.Radix.Names.{IsNamed, kids-IsNamed, sibs-IsNamed}
use free_token_intel.Radix.Names
use free_token_intel.Radix.Grow.{
  grown, IsRest, IsRest-drop, set_parent_beside, set_parent_below, kids_apart, sibs_apart,
  attach_split,
}

abbrev pub total : (Node → ℕ) → Forest → ℕ
total measure bare = 0
total measure (node n kids sibs) = measure n + total measure kids + total measure sibs

-- A measure that a walk with the next uuid `u` does not change: it reads no timestamp, and a split
-- divides it.
pub record IsAdditive (u : ℕ) (measure : Node → ℕ) : Type 0 where
  pub touched : (n : Node) (tic : ℕ) → measure (record n { timestamp = tic }) ≡ measure n
  pub divided :
      (m tic : ℕ) (n : Node)
      → measure (prefix_node m u tic n) + measure (suffix_node m n) ≡ measure n

module _ (u : ℕ) (measure : Node → ℕ) (a : IsAdditive u measure) where
  pub tree_walk-total :
      (page_size tic : ℕ) (f : Forest) (x : List ℕ)
      → total measure (tree_walk page_size tic u f x).forest ≡ total measure f
  unfolding tree_walk split_at
  tree_walk-total page_size tic bare x = refl
  tree_walk-total page_size tic (node n kids sibs) x =
      let m = align_down (compare_key n.key x) page_size in
      let below = tree_walk-total page_size tic kids (drop m x) in
      let beside = tree_walk-total page_size tic sibs x in
      elim (Bool-cases (same_page page_size n.key x)) [
        | inl page ↦ elim (Bool-cases (m == length n.key)) [
          | inl whole ↦ rw (page, whole) (omega (arith, below, a.touched n tic))
          | inr part ↦ rw (page, part) (omega (arith, a.divided m tic n))
        ]
        | inr other ↦ rw other (omega (arith, beside))
      ]

  module _ (page_size : ℕ) (pos : 0 < page_size) where
    -- An insertion adds its new node and nothing else.
    pub grown-total :
        (tic : ℕ) (new : Node) (f : Forest) (x slots : List ℕ)
        → IsTree page_size f
        → IsNamed u f
        → IsRest page_size pos new (tree_walk page_size tic u f x) x slots
        → total measure (grown page_size pos new (tree_walk page_size tic u f x))
          ≡ total measure f + measure new
    unfolding tree_walk add_child
    grown-total tic new bare x slots t v h = omega arith
    grown-total tic new (node n kids sibs) x slots t v h =
        let f = node n kids sibs in
        elim (place page_size n x) [
          | Place.beside out ↦
              let e = walk_beside page_size pos tic u n kids sibs x t.0 out in
              let w = tree_walk page_size tic u sibs x in
              let h' =
                IsRest-drop page_size pos new (tree_walk page_size tic u f x) w 0 x slots
                  (omega (arith, ap (λ w. w.prefix_len) e)) h in
              let put =
                set_parent_beside page_size pos new n kids w.forest w.reached t.0
                  (λ r. rw (h'.key, Names.reached_none page_size tic u sibs x r) out)
                  (λ p r. sibs_apart page_size pos tic u n kids sibs v x p r) in
              let inner = grown-total tic new sibs x slots t.2 (sibs-IsNamed u n kids sibs v) h' in
              ap (λ w. total measure (grown page_size pos new w)) e
              ∙ ap (total measure) put
              ∙ omega (arith, inner)
          | Place.inside first part ↦
              let e = walk_inside page_size pos tic u n kids sibs x t.0 first part in
              let m = align_down (compare_key n.key x) page_size in
              let ek : new.key ≡ drop m x = h.key ∙ ap (λ w. drop w.prefix_len x) e in
              let put =
                attach_split page_size pos tic u new n kids sibs x [] t.0 first part h.span ek in
              ap (λ w. total measure (grown page_size pos new w)) e
              ∙ ap (total measure) put
              ∙ omega (arith, a.divided m tic n)
          | Place.below all ↦
              let e = walk_below page_size pos tic u n kids sibs x t.0 all in
              let x' = drop (length n.key) x in
              let w = tree_walk page_size tic u kids x' in
              let h' =
                IsRest-drop page_size pos new (tree_walk page_size tic u f x) w (length n.key) x
                  slots (ap (λ w. w.prefix_len) e) h in
              let n' : Node = record n { timestamp = tic } in
              let put =
                set_parent_below page_size pos new n' w.forest sibs w.reached
                  (λ p r. kids_apart page_size pos tic u n kids sibs v x' p r) in
              let inner =
                grown-total tic new kids x' (drop (length n.key) slots) t.1
                  (kids-IsNamed u n kids sibs v) h' in
              ap (λ w. total measure (grown page_size pos new w)) e
              ∙ ap (total measure) put
              ∙ omega (arith, inner, a.touched n tic)
        ]
