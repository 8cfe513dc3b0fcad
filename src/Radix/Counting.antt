-- ===== src/Radix/Counting.antt =====
-- A match and an insertion under locks: the counts and the sizes.
use free_token_intel.Prelude.{
  ℕ, ◌<◌, ◌≡◌, refl, sym, ap, subst, ◌∙◌, List, [], arith, length, drop, length-take, length-drop,
}
use free_token_intel.Align.{align_down}
use free_token_intel.Radix.{
  Node, Forest, bare, node, compare_key, split_at, Walked, tree_walk, add_child,
}
use free_token_intel.Radix.View.{IsTree, Place, place}
use free_token_intel.Radix.Walk.{walk_beside, walk_inside, walk_below}
use free_token_intel.Radix.Names.{IsNamed, kids-IsNamed, sibs-IsNamed}
use free_token_intel.Radix.Names
use free_token_intel.Radix.Grow.{
  grown, IsRest, IsRest-drop, set_parent_beside, set_parent_below, kids_apart, sibs_apart,
  attach_split,
}
use free_token_intel.Radix.Totals.{IsAdditive, tree_walk-total, grown-total}
use free_token_intel.Radix.Ledger.{Locks, IsCounted, free_size, held_size}

pub free_size-IsAdditive : (u : ℕ) → IsAdditive u free_size
free_size-IsAdditive u = record {
  touched = λ n tic. refl;
  divided = λ m tic n. ground (arith, length-take m n.key, length-drop m n.key);
}

pub held_size-IsAdditive : (u : ℕ) → IsAdditive u held_size
held_size-IsAdditive u = record {
  touched = λ n tic. refl;
  divided = λ m tic n. ground (arith, length-take m n.key, length-drop m n.key);
}

module _ (u : ℕ) (held : Locks) (fresh : held u ≡ 0) where
  pub pins-IsAdditive : IsAdditive u (λ n. held n.uuid)
  pins-IsAdditive = record { touched = λ n tic. refl; divided = λ m tic n. omega (arith, fresh) }

  split_at-IsCounted :
      (m tic : ℕ) (n : Node) (kids sibs : Forest)
      → IsCounted held (node n kids sibs)
      → IsCounted held (split_at m u tic n kids sibs)
  unfolding split_at
  split_at-IsCounted m tic n kids sibs c = (omega (arith, c.0, fresh), (c.0, c.1, tt), c.2)

  module _ (page_size : ℕ) (pos : 0 < page_size) where
    pub tree_walk-IsCounted :
        (tic : ℕ) (f : Forest) (x : List ℕ)
        → IsTree page_size f
        → IsCounted held f
        → IsCounted held (tree_walk page_size tic u f x).forest
    unfolding tree_walk
    tree_walk-IsCounted tic bare x t c = tt
    tree_walk-IsCounted tic (node n kids sibs) x t c =
        let m = align_down (compare_key n.key x) page_size in
        elim (place page_size n x) [
          | Place.beside out ↦
              subst (λ w. IsCounted held w.forest)
                (sym (walk_beside page_size pos tic u n kids sibs x t.0 out))
                (c.0, c.1, tree_walk-IsCounted tic sibs x t.2 c.2)
          | Place.inside first part ↦
              subst (λ w. IsCounted held w.forest)
                (sym (walk_inside page_size pos tic u n kids sibs x t.0 first part))
                (split_at-IsCounted m tic n kids sibs c)
          | Place.below all ↦
              let x' = drop (length n.key) x in
              subst (λ w. IsCounted held w.forest)
                (sym (walk_below page_size pos tic u n kids sibs x t.0 all))
                (
                  omega (
                    arith,
                    c.0,
                    tree_walk-total u (λ n. held n.uuid) pins-IsAdditive page_size tic kids x',
                  ),
                  tree_walk-IsCounted tic kids x' t.1 c.1,
                  c.2,
                )
        ]

    pub grown-IsCounted :
        (tic : ℕ) (new : Node) (f : Forest) (x slots : List ℕ)
        → (new.ref_count ≡ 0) × (held new.uuid ≡ 0)
        → IsTree page_size f
        → IsNamed u f
        → IsRest page_size pos new (tree_walk page_size tic u f x) x slots
        → IsCounted held f
        → IsCounted held (grown page_size pos new (tree_walk page_size tic u f x))
    unfolding tree_walk add_child
    grown-IsCounted tic new bare x slots z t v h c = (omega (arith, z.0, z.1), tt, tt)
    grown-IsCounted tic new (node n kids sibs) x slots z t v h c =
        let f = node n kids sibs in
        let Goal : Walked → Type 0 = λ w. IsCounted held (grown page_size pos new w) in
        elim (place page_size n x) [
          | Place.beside out ↦
              let e = walk_beside page_size pos tic u n kids sibs x t.0 out in
              let w = tree_walk page_size tic u sibs x in
              let h' =
                IsRest-drop page_size pos new (tree_walk page_size tic u f x) w 0 x slots
                  (omega (arith, ap (λ w. w.prefix_len) e)) h in
              let put =
                set_parent_beside page_size pos new n kids w.forest w.reached t.0
                  (λ r. rw (h'.key, Names.reached_none page_size tic u sibs x r) out)
                  (λ p r. sibs_apart page_size pos tic u n kids sibs v x p r) in
              let inner =
                grown-IsCounted tic new sibs x slots z t.2 (sibs-IsNamed u n kids sibs v) h' c.2 in
              subst Goal (sym e) (subst (IsCounted held) (sym put) (c.0, c.1, inner))
          | Place.inside first part ↦
              let e = walk_inside page_size pos tic u n kids sibs x t.0 first part in
              let m = align_down (compare_key n.key x) page_size in
              let ek : new.key ≡ drop m x = h.key ∙ ap (λ w. drop w.prefix_len x) e in
              let put =
                attach_split page_size pos tic u new n kids sibs x [] t.0 first part h.span ek in
              subst Goal (sym e) (
                subst (IsCounted held) (sym put) (
                  omega (arith, c.0, fresh, z.1),
                  (c.0, c.1, (omega (arith, z.0, z.1), tt, tt)),
                  c.2,
                ))
          | Place.below all ↦
              let e = walk_below page_size pos tic u n kids sibs x t.0 all in
              let x' = drop (length n.key) x in
              let w = tree_walk page_size tic u kids x' in
              let h' =
                IsRest-drop page_size pos new (tree_walk page_size tic u f x) w (length n.key) x
                  slots (ap (λ w. w.prefix_len) e) h in
              let n' : Node = record n { timestamp = tic } in
              let put =
                set_parent_below page_size pos new n' w.forest sibs w.reached
                  (λ p r. kids_apart page_size pos tic u n kids sibs v x' p r) in
              let kids_named = kids-IsNamed u n kids sibs v in
              let inner =
                grown-IsCounted tic new kids x' (drop (length n.key) slots) z t.1 kids_named h'
                  c.1 in
              let sum_below =
                grown-total u (λ n. held n.uuid) pins-IsAdditive page_size pos tic new kids x'
                  (drop (length n.key) slots) t.1 kids_named h' in
              subst Goal (sym e)
                (subst (IsCounted held) (sym put) (omega (arith, c.0, sum_below, z.1), inner, c.2))
        ]
