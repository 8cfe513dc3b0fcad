-- ===== src/Radix/Walk.antt =====
-- What a walk does to the view of the tree, and how far it gets.
use free_token_intel.Prelude.{
  ℕ, suc, ◌+◌, ◌≤◌, ◌<◌, ◌≡◌, refl, sym, ap, ◌∙◌, true, some, List, ◌++◌, arith, length, take, drop,
  length-append, length-take, length-drop,
}
use free_token_intel.Align.{align_down, align_down-le}
use free_token_intel.Radix.{
  Node, Forest, bare, node, compare_key, same_page, split_at, Walked, or_here, tree_walk,
}
use free_token_intel.Radix.Prefixes.{
  IsAligned, compare_key-le_right, align_down-IsAligned, align_down-add, align_down_small,
  align_down_page,
}
use free_token_intel.Radix.View.{
  stored, IsSpan, IsTree, Place, place, page_test, part_lt, stored_beside, stored_inside,
  stored_below, prefix-IsSpan, suffix-IsSpan,
}
use free_token_intel.Radix.Split.{stored-split_at}

pub touched-IsSpan :
    {page_size : ℕ} (n : Node) (tic : ℕ)
    → IsSpan page_size n
    → IsSpan page_size (record n { timestamp = tic })
touched-IsSpan n tic s = record { page = s.page; aligned = s.aligned; paired = s.paired }

module _ (page_size : ℕ) (pos : 0 < page_size) where
  -- The view of a node follows those of its children and of its siblings.
  pub stored-node :
      (n : Node) (tic : ℕ) (kids kids' sibs sibs' : Forest)
      → IsSpan page_size n
      → ((y : List ℕ) → stored page_size kids' y ≡ stored page_size kids y)
      → ((y : List ℕ) → stored page_size sibs' y ≡ stored page_size sibs y)
      → (y : List ℕ)
      → stored page_size (node (record n { timestamp = tic }) kids' sibs') y
        ≡ stored page_size (node n kids sibs) y
  stored-node n tic kids kids' sibs sibs' span ek es y =
      let n' : Node = record n { timestamp = tic } in
      let span' : IsSpan page_size n' = touched-IsSpan n tic span in
      elim (place page_size n y) [
        | Place.beside out ↦
            rw
              (
                stored_beside page_size pos n' span' kids' sibs' y out,
                stored_beside page_size pos n span kids sibs y out,
              )
              (es y)
        | Place.inside first part ↦
            rw
              (
                stored_inside page_size pos n' span' kids' sibs' y first part,
                stored_inside page_size pos n span kids sibs y first part,
              )
              refl
        | Place.below all ↦
            rw
              (
                stored_below page_size pos n' span' kids' sibs' y all,
                stored_below page_size pos n span kids sibs y all,
              )
              (ap (λ v. n.value ++ v) (ek (drop (length n.key) y)))
      ]

  -- What a walk over `f` for `x` promises.
  pub record Walks (f : Forest) (x : List ℕ) (w : Walked) : Type 0 where
    pub same_view : (y : List ℕ) → stored page_size w.forest y ≡ stored page_size f y
    pub got : w.prefix_len ≡ length (stored page_size f x)
    pub tree : IsTree page_size w.forest

  module _ (tic uuid : ℕ) (n : Node) (kids sibs : Forest) (x : List ℕ)
      (span : IsSpan page_size n) where
    matched : ℕ
    matched = align_down (compare_key n.key x) page_size

    pub walk_beside :
        compare_key n.key x < page_size
        → tree_walk page_size tic uuid (node n kids sibs) x
          ≡ record (tree_walk page_size tic uuid sibs x) {
            forest = node n kids (tree_walk page_size tic uuid sibs x).forest;
          }
    unfolding tree_walk
    walk_beside out = ground (arith, page_test page_size pos n span x)

    pub walk_inside :
        page_size ≤ compare_key n.key x
        → compare_key n.key x < length n.key
        → tree_walk page_size tic uuid (node n kids sibs) x ≡ record {
          forest = split_at (align_down (compare_key n.key x) page_size) uuid tic n kids sibs;
          prefix_len = align_down (compare_key n.key x) page_size;
          reached = some uuid;
          next_uuid = suc uuid;
        }
    unfolding tree_walk
    walk_inside first part =
        ground (arith, page_test page_size pos n span x, part_lt page_size pos n span x part)

    pub walk_below :
        compare_key n.key x ≡ length n.key
        → let w = tree_walk page_size tic uuid kids (drop (length n.key) x) in
          tree_walk page_size tic uuid (node n kids sibs) x ≡ record {
            forest = node (record n { timestamp = tic }) w.forest sibs;
            prefix_len = length n.key + w.prefix_len;
            reached = or_here w.reached n.uuid;
            next_uuid = w.next_uuid;
          }
    unfolding tree_walk
    walk_below all =
        let whole : align_down (compare_key n.key x) page_size ≡ length n.key =
          ap (λ c. align_down c page_size) all ∙ span.aligned in
        let test : same_page page_size n.key x ≡ true =
          ground (arith, page_test page_size pos n span x, span.page) in
        rw (test, whole) (ground arith)

  pub split_bounds :
      (n : Node) (x : List ℕ)
      → page_size ≤ compare_key n.key x
      → compare_key n.key x < length n.key
      → (page_size ≤ align_down (compare_key n.key x) page_size)
        × (align_down (compare_key n.key x) page_size < length n.key)
        × IsAligned page_size (align_down (compare_key n.key x) page_size)
  split_bounds n x first part = (
    align_down_page page_size (compare_key n.key x) first,
    omega (arith, align_down-le (compare_key n.key x) page_size),
    align_down-IsAligned (compare_key n.key x) page_size,
  )

  split_at-IsTree :
      (m uuid tic : ℕ) (n : Node) (kids sibs : Forest)
      → page_size ≤ m
      → m < length n.key
      → IsAligned page_size m
      → IsTree page_size (node n kids sibs)
      → IsTree page_size (split_at m uuid tic n kids sibs)
  unfolding split_at
  split_at-IsTree m uuid tic n kids sibs first part whole t = (
    prefix-IsSpan page_size pos m n t.0 first part whole uuid tic,
    (suffix-IsSpan page_size pos m n t.0 first part whole, t.1, tt),
    t.2,
  )

  pub tree_walk-Walks :
      (tic uuid : ℕ) (f : Forest) (x : List ℕ)
      → IsTree page_size f
      → Walks f x (tree_walk page_size tic uuid f x)
  unfolding tree_walk stored
  tree_walk-Walks tic uuid bare x t = record { same_view = λ y. refl; got = refl; tree = tt }
  tree_walk-Walks tic uuid (node n kids sibs) x t = elim (place page_size n x) [
    | Place.beside out ↦
        let v = tree_walk-Walks tic uuid sibs x t.2 in
        simp (walk_beside tic uuid n kids sibs x t.0 out) (record {
          same_view = stored-node n n.timestamp kids kids sibs _ t.0 (λ y. refl) v.same_view;
          got = v.got ∙ ap length (sym (stored_beside page_size pos n t.0 kids sibs x out));
          tree = (t.0, t.1, v.tree);
        })
    | Place.inside first part ↦
        let m = align_down (compare_key n.key x) page_size in
        let (low, high, whole) = split_bounds n x first part in
        simp (walk_inside tic uuid n kids sibs x t.0 first part) (record {
          same_view =
              λ y. stored-split_at page_size pos m uuid tic n kids sibs t.0 low high whole y;
          got =
              rw (stored_inside page_size pos n t.0 kids sibs x first part)
                (omega (arith, length-take m n.value, t.0.paired));
          tree = split_at-IsTree m uuid tic n kids sibs low high whole t;
        })
    | Place.below all ↦
        let x' = drop (length n.key) x in
        let v = tree_walk-Walks tic uuid kids x' t.1 in
        simp (walk_below tic uuid n kids sibs x t.0 all) (record {
          same_view = stored-node n tic kids _ sibs sibs t.0 v.same_view (λ y. refl);
          got =
              rw (stored_below page_size pos n t.0 kids sibs x all) (
                omega (arith, v.got, t.0.paired, length-append n.value (stored page_size kids x')));
          tree = (touched-IsSpan n tic t.0, v.tree, t.2);
        })
  ]

  -- A resident prefix is whole pages, and no longer than the input.
  pub stored-IsAligned :
      (f : Forest) (y : List ℕ)
      → IsTree page_size f
      → IsAligned page_size (length (stored page_size f y))
        × (length (stored page_size f y) ≤ length y)
  unfolding stored
  stored-IsAligned bare y t = (align_down_small page_size 0 pos, omega arith)
  stored-IsAligned (node n kids sibs) y t = elim (place page_size n y) [
    | Place.beside out ↦
        rw (stored_beside page_size pos n t.0 kids sibs y out) (stored-IsAligned sibs y t.2)
    | Place.inside first part ↦
        let m = align_down (compare_key n.key y) page_size in
        let (low, high, whole) = split_bounds n y first part in
        let e : length (take m n.value) ≡ m = omega (arith, length-take m n.value, t.0.paired) in
        rw (stored_inside page_size pos n t.0 kids sibs y first part, e)
          (
            whole,
            omega (
              arith,
              align_down-le (compare_key n.key y) page_size,
              compare_key-le_right n.key y,
            ),
          )
    | Place.below all ↦
        let y' = drop (length n.key) y in
        let v = stored-IsAligned kids y' t.1 in
        let s = stored page_size kids y' in
        let e : length (n.value ++ s) ≡ length n.key + length s =
          omega (arith, length-append n.value s, t.0.paired) in
        rw (stored_below page_size pos n t.0 kids sibs y all, e)
          (
            omega (arith, align_down-add page_size (length n.key) (length s) pos t.0.aligned, v.0),
            omega (arith, v.1, all, compare_key-le_right n.key y, length-drop (length n.key) y),
          )
  ]
