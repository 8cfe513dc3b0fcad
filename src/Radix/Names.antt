-- ===== src/Radix/Names.antt =====
-- The uuids of a tree: each node has its own, and a walk makes at most one new one.
use free_token_intel.Prelude.{
  ℕ, suc, ◌+◌, ◌≤◌, ◌<◌, ◌≡◌, refl, ◌⊎◌, inl, inr, Option, none, some, List, [], ◌∷◌, ◌++◌, arith,
  ◌==◌, if◌then◌else◌, Bool-cases, Option-cases, ==_iff, length, drop, count, count-append,
}
use free_token_intel.Align.{align_down}
use free_token_intel.Radix.{
  Node, Forest, bare, node, compare_key, same_page, split_at, Walked, tree_walk, attach,
}

abbrev pub uuids : Forest → List ℕ
uuids bare = []
uuids (node n kids sibs) = n.uuid ∷ uuids kids ++ uuids sibs

-- The uuids of a tree are distinct, and below the next one.
pub record IsNamed (next : ℕ) (f : Forest) : Type 0 where
  pub once : (x : ℕ) → count x (uuids f) ≤ 1
  pub old : (x : ℕ) → next ≤ x → count x (uuids f) ≡ 0

module _ (next : ℕ) (n : Node) (kids sibs : Forest) where
  pub node-uuids :
      (x : ℕ)
      → count x (uuids (node n kids sibs))
        ≡ (if n.uuid == x then 1 else 0) + (count x (uuids kids) + count x (uuids sibs))
  unfolding count
  node-uuids x = omega (arith, count-append x (uuids kids) (uuids sibs))

  pub kids-IsNamed : IsNamed next (node n kids sibs) → IsNamed next kids
  kids-IsNamed v = record {
    once = λ x. omega (arith, v.once x, node-uuids x);
    old = λ x h. omega (arith, v.old x h, node-uuids x);
  }

  pub sibs-IsNamed : IsNamed next (node n kids sibs) → IsNamed next sibs
  sibs-IsNamed v = record {
    once = λ x. omega (arith, v.once x, node-uuids x);
    old = λ x h. omega (arith, v.old x h, node-uuids x);
  }

-- The node that a walk ends on is a node of the tree or the new one.
pub reached-uuids :
    (page_size tic u : ℕ) (f : Forest) (x : List ℕ) (p : ℕ)
    → (tree_walk page_size tic u f x).reached ≡ some p
    → (0 < count p (uuids f)) ⊎ (p ≡ u)
unfolding tree_walk
reached-uuids page_size tic u bare x p e = absurd (ground arith)
reached-uuids page_size tic u (node n kids sibs) x p e =
    let m = align_down (compare_key n.key x) page_size in
    let below = reached-uuids page_size tic u kids (drop m x) p in
    let beside = reached-uuids page_size tic u sibs x p in
    let names = node-uuids u n kids sibs p in
    elim (Bool-cases (same_page page_size n.key x)) [
      | inl page ↦ elim (Bool-cases (m == length n.key)) [
        | inl whole ↦
            let inner = (tree_walk page_size tic u kids (drop m x)).reached in
            elim (Option-cases inner) [
              | inl stop ↦ inl (ground (arith, stop, names))
              | inr (q, deeper) ↦ elim (below (ground (arith, deeper))) [
                | inl there ↦ inl (omega (arith, names, there))
                | inr new ↦ inr new
              ]
            ]
        | inr part ↦ inr (ground arith)
      ]
      | inr other ↦ elim (beside (ground arith)) [
        | inl there ↦ inl (omega (arith, names, there))
        | inr new ↦ inr new
      ]
    ]

pub reached_none :
    (page_size tic u : ℕ) (f : Forest) (x : List ℕ)
    → (tree_walk page_size tic u f x).reached ≡ none
    → (tree_walk page_size tic u f x).prefix_len ≡ 0
unfolding tree_walk
reached_none page_size tic u bare x e = refl
reached_none page_size tic u (node n kids sibs) x e =
    let m = align_down (compare_key n.key x) page_size in
    elim (Option-cases (tree_walk page_size tic u kids (drop m x)).reached) [
      | inl stop ↦ ground (arith, reached_none page_size tic u sibs x)
      | inr (q, deeper) ↦ ground (arith, reached_none page_size tic u sibs x)
    ]

-- No node of the tree, nothing attached.
pub attach_absent :
    (page_size : ℕ) (new : Node) (p : ℕ) (f : Forest)
    → count p (uuids f) ≡ 0
    → attach page_size new p f ≡ f
unfolding attach
attach_absent page_size new p bare h = refl
attach_absent page_size new p (node n kids sibs) h =
    let names = node-uuids 0 n kids sibs p in
    ground (
      arith,
      names,
      attach_absent page_size new p kids (omega (arith, names)),
      attach_absent page_size new p sibs (omega (arith, names)),
    )

-- A walk keeps the uuids, and counts the one that a split takes.
pub data Renames (u : ℕ) (f : Forest) (w : Walked) : Type 0 where
  kept : w.next_uuid ≡ u → ((x : ℕ) → count x (uuids w.forest) ≡ count x (uuids f)) → Renames u f w
  one_more :
      w.next_uuid ≡ suc u
      → ((x : ℕ) → count x (uuids w.forest) ≡ (if u == x then 1 else 0) + count x (uuids f))
      → Renames u f w

pub Renames-IsNamed :
    (u : ℕ) (f : Forest) (w : Walked) → Renames u f w → IsNamed u f → IsNamed w.next_uuid w.forest
Renames-IsNamed u f w (Renames.kept e same) v = record {
  once = λ x. omega (arith, same x, v.once x);
  old = λ x h. omega (arith, e, same x, v.old x (omega (arith, e, h)));
}
Renames-IsNamed u f w (Renames.one_more e same) v = record {
  once = λ x. elim (Bool-cases (u == x)) [
    | inl hit ↦ ground (arith, same x, v.old x, (==_iff u x).0 hit)
    | inr miss ↦ ground (arith, same x, v.once x)
  ];
  old = λ x h. ground (arith, e, same x, v.old x);
}

-- Below one node, the counts of its children and siblings change as they do.
module _ (u : ℕ) (n : Node) (tic : ℕ) (kids sibs : Forest) where
  rename-kids :
      (w : Walked) (r : Option ℕ) (m : ℕ)
      → Renames u kids w
      → Renames u (node n kids sibs) (record {
        forest = node (record n { timestamp = tic }) w.forest sibs;
        prefix_len = m;
        reached = r;
        next_uuid = w.next_uuid;
      })
  rename-kids w r m (Renames.kept e same) = Renames.kept e (λ x. omega (
    arith,
    same x,
    node-uuids u n kids sibs x,
    node-uuids u (record n { timestamp = tic }) w.forest sibs x,
  ))
  rename-kids w r m (Renames.one_more e same) = Renames.one_more e (λ x. omega (
    arith,
    same x,
    node-uuids u n kids sibs x,
    node-uuids u (record n { timestamp = tic }) w.forest sibs x,
  ))

  rename-sibs :
      (w : Walked)
      → Renames u sibs w
      → Renames u (node n kids sibs) (record w { forest = node n kids w.forest })
  rename-sibs w (Renames.kept e same) =
      Renames.kept e
        (λ x. omega (arith, same x, node-uuids u n kids sibs x, node-uuids u n kids w.forest x))
  rename-sibs w (Renames.one_more e same) =
      Renames.one_more e
        (λ x. omega (arith, same x, node-uuids u n kids sibs x, node-uuids u n kids w.forest x))

  split-uuids :
      (m : ℕ) (x : ℕ)
      → count x (uuids (split_at m u tic n kids sibs))
        ≡ (if u == x then 1 else 0) + count x (uuids (node n kids sibs))
  unfolding split_at count
  split-uuids m x = omega (
    arith,
    count-append x (n.uuid ∷ uuids kids ++ []) (uuids sibs),
    count-append x (uuids kids) [],
    count-append x (uuids kids) (uuids sibs),
  )

pub tree_walk-Renames :
    (page_size tic u : ℕ) (f : Forest) (x : List ℕ) → Renames u f (tree_walk page_size tic u f x)
unfolding tree_walk
tree_walk-Renames page_size tic u bare x = Renames.kept refl (λ y. refl)
tree_walk-Renames page_size tic u (node n kids sibs) x =
    let m = align_down (compare_key n.key x) page_size in
    let below = tree_walk-Renames page_size tic u kids (drop m x) in
    let beside = tree_walk-Renames page_size tic u sibs x in
    elim (Bool-cases (same_page page_size n.key x)) [
      | inl page ↦ elim (Bool-cases (m == length n.key)) [
        | inl whole ↦ rw (page, whole) (rename-kids u n tic kids sibs _ _ _ below)
        | inr part ↦ rw (page, part) (Renames.one_more refl (split-uuids u n tic kids sibs m))
      ]
      | inr other ↦ rw other (rename-sibs u n tic kids sibs _ beside)
    ]
