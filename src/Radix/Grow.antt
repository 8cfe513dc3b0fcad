-- ===== src/Radix/Grow.antt =====
-- The whole insertion: a walk, and the new node below where it ended.
use free_token_intel.Prelude.{
  ℕ, ◌+◌, ◌≤◌, ◌<◌, ◌≡◌, refl, sym, ap, subst, ◌∙◌, ◌≢◌, inl, inr, Option, none, some, List, arith,
  length, drop, length-take, count,
}
use free_token_intel.Prelude.{drop-drop}
use free_token_intel.Align.{align_down, align_down-le, lt-align_down}
use free_token_intel.Radix.{
  Node, Forest, bare, node, compare_key, split_at, Walked, or_here, tree_walk, add_child, attach,
  set_parent,
}
use free_token_intel.Radix.Prefixes.{compare_key-drop, compare_key-take}
use free_token_intel.Radix.View.{
  stored, IsSpan, IsTree, Place, place, page_test, prefix_node, suffix_node, prefix-IsSpan,
  suffix-IsSpan,
}
use free_token_intel.Radix.Split.{stored-split_at}
use free_token_intel.Radix.Walk.{split_bounds, stored-node, walk_beside, walk_inside, walk_below}
use free_token_intel.Radix.Names.{
  uuids, IsNamed, node-uuids, kids-IsNamed, sibs-IsNamed, reached-uuids, reached_none,
  attach_absent,
}
use free_token_intel.Radix.Insert.{merged, common_pages, Adds, bare-Adds, beside-Adds, below-Adds}

module _ (page_size : ℕ) (pos : 0 < page_size) where
  -- The tree with the new node below the end of a walk.
  abbrev pub grown : Node → Walked → Forest
  grown new w = set_parent page_size new w.reached w.forest

  -- A new node that shares no page with a child goes behind it.
  add_child_beside :
      (new n : Node) (kids sibs : Forest)
      → IsSpan page_size n
      → compare_key n.key new.key < page_size
      → add_child page_size new (node n kids sibs) ≡ node n kids (add_child page_size new sibs)
  unfolding add_child
  add_child_beside new n kids sibs span out = ground (arith, page_test page_size pos n span new.key)

  pub set_parent_beside :
      (new n : Node) (kids sibs : Forest) (r : Option ℕ)
      → IsSpan page_size n
      → (r ≡ none → compare_key n.key new.key < page_size)
      → ((p : ℕ) → r ≡ some p → (p ≢ n.uuid) × (count p (uuids kids) ≡ 0))
      → set_parent page_size new r (node n kids sibs)
        ≡ node n kids (set_parent page_size new r sibs)
  unfolding attach
  set_parent_beside new n kids sibs none span out far =
      add_child_beside new n kids sibs span (out refl)
  set_parent_beside new n kids sibs (some p) span out far =
      let (other, absent) = far p refl in
      ground (arith, other, attach_absent page_size new p kids absent)

  pub set_parent_below :
      (new n : Node) (kids sibs : Forest) (r : Option ℕ)
      → ((p : ℕ) → r ≡ some p → (p ≢ n.uuid) × (count p (uuids sibs) ≡ 0))
      → set_parent page_size new (or_here r n.uuid) (node n kids sibs)
        ≡ node n (set_parent page_size new r kids) sibs
  unfolding attach
  set_parent_below new n kids sibs none far = ground arith
  set_parent_below new n kids sibs (some p) far =
      let (other, absent) = far p refl in
      ground (arith, other, attach_absent page_size new p sibs absent)

  -- A node that a walk of the children ends on is neither their parent nor beside it.
  module _ (tic u : ℕ) (n : Node) (kids sibs : Forest) (named : IsNamed u (node n kids sibs)) where
    pub kids_apart :
        (x : List ℕ) (p : ℕ)
        → (tree_walk page_size tic u kids x).reached ≡ some p
        → (p ≢ n.uuid) × (count p (uuids sibs) ≡ 0)
    kids_apart x p e =
        let names = node-uuids u n kids sibs p in
        elim (reached-uuids page_size tic u kids x p e) [
          | inl there ↦ (
            λ same. ground (arith, names, named.once p, there, same),
            ground (arith, names, named.once p, there),
          )
          | inr new ↦ (
            λ same. ground (arith, names, named.old p, new, same),
            ground (arith, names, named.old p, new),
          )
        ]

    pub sibs_apart :
        (x : List ℕ) (p : ℕ)
        → (tree_walk page_size tic u sibs x).reached ≡ some p
        → (p ≢ n.uuid) × (count p (uuids kids) ≡ 0)
    sibs_apart x p e =
        let names = node-uuids u n kids sibs p in
        elim (reached-uuids page_size tic u sibs x p e) [
          | inl there ↦ (
            λ same. ground (arith, names, named.once p, there, same),
            ground (arith, names, named.once p, there),
          )
          | inr new ↦ (
            λ same. ground (arith, names, named.old p, new, same),
            ground (arith, names, named.old p, new),
          )
        ]

  -- The new node holds what the walk left of the input and of its slots.
  pub record IsRest (new : Node) (w : Walked) (x slots : List ℕ) : Type 0 where
    pub key : new.key ≡ drop w.prefix_len x
    pub value : new.value ≡ drop w.prefix_len slots
    pub span : IsSpan page_size new

  pub IsRest-drop :
      (new : Node) (w v : Walked) (m : ℕ) (x slots : List ℕ)
      → w.prefix_len ≡ m + v.prefix_len
      → IsRest new w x slots
      → IsRest new v (drop m x) (drop m slots)
  IsRest-drop new w v m x slots e h = record {
    key = h.key ∙ sym (drop-drop v.prefix_len m w.prefix_len x (sym e));
    value = h.value ∙ sym (drop-drop v.prefix_len m w.prefix_len slots (sym e));
    span = h.span;
  }

  Adds-new :
      (new : Node) (x slots : List ℕ)
      → IsSpan page_size new
      → new.key ≡ x
      → new.value ≡ slots
      → Adds page_size pos bare (node new bare bare) x slots
  Adds-new new x slots span ek ev =
      subst (λ k. Adds page_size pos bare (node new bare bare) k slots) ek
        (subst (λ v. Adds page_size pos bare (node new bare bare) new.key v) ev
          (bare-Adds page_size pos new span))

  pub add_child_bare : (new : Node) → add_child page_size new bare ≡ node new bare bare
  unfolding add_child
  add_child_bare new = refl

  module _ (tic u : ℕ) (new n : Node) (kids sibs : Forest) (x slots : List ℕ)
      (span : IsSpan page_size n) (first : page_size ≤ compare_key n.key x)
      (part : compare_key n.key x < length n.key) where
    cut : ℕ
    cut = align_down (compare_key n.key x) page_size

    split_tree : Forest
    split_tree = split_at cut u tic n kids sibs

    pub attach_split :
        IsSpan page_size new
        → new.key ≡ drop (align_down (compare_key n.key x) page_size) x
        → let m = align_down (compare_key n.key x) page_size in
          attach page_size new u (split_at m u tic n kids sibs)
          ≡ node (prefix_node m u tic n) (node (suffix_node m n) kids (node new bare bare)) sibs
    unfolding split_at attach
    attach_split fresh ek =
        let m = align_down (compare_key n.key x) page_size in
        let (low, high, whole) = split_bounds page_size pos n x first part in
        let back = suffix_node m n in
        let sb = suffix-IsSpan page_size pos m n span low high whole in
        let le : m ≤ compare_key n.key x = align_down-le (compare_key n.key x) page_size in
        let out : compare_key back.key (drop m x) < page_size = omega (
          arith,
          compare_key-drop m n.key x le,
          lt-align_down (compare_key n.key x) page_size pos,
        ) in
        let put =
          add_child_beside new back kids bare sb
            (subst (λ k. compare_key back.key k < page_size) (sym ek) out) in
        ground (arith, put, add_child_bare new)

    -- Behind a split the new node stands beside the old suffix.
    split-Adds :
        IsSpan page_size new
        → new.key ≡ drop cut x
        → new.value ≡ drop cut slots
        → Adds page_size pos (node n kids sibs) (attach page_size new u split_tree) x slots
    unfolding cut split_tree split_at attach
    split-Adds fresh ek ev y =
        let m = align_down (compare_key n.key x) page_size in
        let (low, high, whole) = split_bounds page_size pos n x first part in
        let front = prefix_node m u tic n in
        let back = suffix_node m n in
        let sf = prefix-IsSpan page_size pos m n span low high whole u tic in
        let sb = suffix-IsSpan page_size pos m n span low high whole in
        let le : m ≤ compare_key n.key x = align_down-le (compare_key n.key x) page_size in
        let out : compare_key back.key (drop m x) < page_size = omega (
          arith,
          compare_key-drop m n.key x le,
          lt-align_down (compare_key n.key x) page_size pos,
        ) in
        let all : compare_key front.key x ≡ length front.key =
          omega (arith, compare_key-take m n.key x, length-take m n.key, le) in
        let len : length front.key ≡ m = omega (arith, length-take m n.key) in
        let tail =
          beside-Adds page_size pos back sb kids bare (node new bare bare) (drop m x) (drop m slots)
            out (Adds-new new (drop m x) (drop m slots) fresh ek ev) in
        let tail' =
          subst
            (λ i.
              Adds page_size pos (node back kids bare) (node back kids (node new bare bare))
                (drop i x) (drop i slots))
            (sym len) tail in
        let step =
          below-Adds page_size pos front sf (node back kids bare)
            (node back kids (node new bare bare)) sibs x slots all tail' y in
        let same = stored-split_at page_size pos m u tic n kids sibs span low high whole in
        let old = node n kids sibs in
        ap (λ t. stored page_size t y) (attach_split fresh ek)
        ∙ step
        ∙ ap
            (λ v.
              merged v (stored page_size (split_at m u tic n kids sibs) x) slots
                (common_pages page_size pos x y))
            (same y)
        ∙ ap (λ v. merged (stored page_size old y) v slots (common_pages page_size pos x y))
            (same x)

  pub grown-Adds :
      (tic u : ℕ) (new : Node) (f : Forest) (x slots : List ℕ)
      → IsTree page_size f
      → IsNamed u f
      → IsRest new (tree_walk page_size tic u f x) x slots
      → Adds page_size pos f (grown new (tree_walk page_size tic u f x)) x slots
  unfolding tree_walk add_child cut split_tree
  grown-Adds tic u new bare x slots t v h = Adds-new new x slots h.span h.key h.value
  grown-Adds tic u new (node n kids sibs) x slots t v h =
      let f = node n kids sibs in
      elim (place page_size n x) [
        | Place.beside out ↦
            let e = walk_beside page_size pos tic u n kids sibs x t.0 out in
            let w = tree_walk page_size tic u sibs x in
            let h' =
              IsRest-drop new (tree_walk page_size tic u f x) w 0 x slots
                (omega (arith, ap (λ w. w.prefix_len) e)) h in
            let first_page : w.reached ≡ none → compare_key n.key new.key < page_size =
              λ r. rw (h'.key, reached_none page_size tic u sibs x r) out in
            let put =
              set_parent_beside new n kids w.forest w.reached t.0 first_page
                (λ p r. sibs_apart tic u n kids sibs v x p r) in
            let inner = grown-Adds tic u new sibs x slots t.2 (sibs-IsNamed u n kids sibs v) h' in
            subst (λ w. Adds page_size pos f (grown new w) x slots) (sym e)
              (subst (λ g. Adds page_size pos f g x slots) (sym put)
                (beside-Adds page_size pos n t.0 kids sibs (grown new w) x slots out inner))
        | Place.inside first part ↦
            let e = walk_inside page_size pos tic u n kids sibs x t.0 first part in
            let ep = ap (λ w. w.prefix_len) e in
            let made =
              split-Adds tic u new n kids sibs x slots t.0 first part h.span
                (h.key ∙ ap (λ i. drop i x) ep) (h.value ∙ ap (λ i. drop i slots) ep) in
            subst (λ w. Adds page_size pos f (grown new w) x slots) (sym e) (made)
        | Place.below all ↦
            let e = walk_below page_size pos tic u n kids sibs x t.0 all in
            let x' = drop (length n.key) x in
            let w = tree_walk page_size tic u kids x' in
            let h' =
              IsRest-drop new (tree_walk page_size tic u f x) w (length n.key) x slots
                (ap (λ w. w.prefix_len) e) h in
            let n' : Node = record n { timestamp = tic } in
            let put =
              set_parent_below new n' w.forest sibs w.reached
                (λ p r. kids_apart tic u n kids sibs v x' p r) in
            let inner =
              grown-Adds tic u new kids x' (drop (length n.key) slots) t.1
                (kids-IsNamed u n kids sibs v) h' in
            let made = below-Adds page_size pos n t.0 kids (grown new w) sibs x slots all inner in
            subst (λ w. Adds page_size pos f (grown new w) x slots) (sym e)
              (subst (λ g. Adds page_size pos f g x slots) (sym put)
                (λ y.
                  stored-node page_size pos n tic (grown new w) (grown new w) sibs sibs t.0
                    (λ z. refl) (λ z. refl) y
                  ∙ made y))
      ]
