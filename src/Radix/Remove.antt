-- ===== src/Radix/Remove.antt =====
-- Taking one unlocked leaf out of a tree: what is left, and which leaves are then unlocked.
use free_token_intel.Prelude.{
  ℕ, ◌+◌, ◌≤◌, ◌≡◌, refl, sym, ap, subst, ◌∙◌, ◌≢◌, inl, inr, true, false, ◌&&◌, some, List, [],
  ◌∷◌, ◌++◌, append-nil, arith, ◌==◌, if◌then◌else◌, Bool-cases, ==_iff, count, count-append,
}
use free_token_intel.Radix.{Node, Forest, bare, node}
use free_token_intel.Radix.Names.{uuids, node-uuids}
use free_token_intel.Radix.View.{IsSpan, IsTree}
use free_token_intel.Radix.Totals.{total}
use free_token_intel.Radix.Locks.{path_value}
use free_token_intel.Radix.Ledger.{Locks, IsCounted}
use free_token_intel.Radix.Evict.{collect_leave_nodes, find_leaf, del_child, only_child, exposed}
use free_token_intel.Radix.Leaves.{
  once, leaf-uuids, del_child-absent, only_child_absent, exposed-absent, find_leaf-absent,
}

module _ (p : ℕ) where
  -- What taking out the leaf `p` leaves.
  pub record Removed (f : Forest) : Type 0 where
    pub taken : Node
    pub found : find_leaf p f ≡ some taken
    pub unlocked : taken.ref_count ≡ 0
    pub named : taken.uuid ≡ p
    pub sums :
        (measure : Node → ℕ) → total measure (del_child p f) + measure taken ≡ total measure f
    pub leaves :
        (x : ℕ)
        → count x (collect_leave_nodes (del_child p f)) + once x p
          ≡ count x (collect_leave_nodes f) + count x (exposed p f)
    pub counted : (held : Locks) → held p ≡ 0 → IsCounted held f → IsCounted held (del_child p f)
    pub refs : (held : Locks) → IsCounted held f → held p ≡ 0
    pub paths : (q : ℕ) → q ≢ p → path_value q (del_child p f) ≡ path_value q f
    pub spans :
        (page_size : ℕ)
        → IsTree page_size f
        → IsSpan page_size taken × IsTree page_size (del_child p f)

  -- A leaf without siblings after it.
  here-Removed :
      (n : Node) (sibs : Forest)
      → n.uuid ≡ p
      → count p (uuids sibs) ≡ 0
      → count p (collect_leave_nodes (node n bare sibs)) ≡ 1
      → Removed (node n bare sibs)
  unfolding collect_leave_nodes find_leaf del_child exposed count path_value
  here-Removed n sibs here gone one =
      let own : List ℕ = if n.ref_count == 0 then n.uuid ∷ [] else [] in
      let split = λ (x : ℕ). count-append x (collect_leave_nodes sibs) own in
      let zero_refs : n.ref_count ≡ 0 = ground (arith, split p, leaf-uuids p sibs) in
      let hit : (n.uuid == p) ≡ true = (==_iff n.uuid p).1 here in
      record {
        taken = n;
        found = ground (arith, hit);
        unlocked = zero_refs;
        named = here;
        sums = λ measure. ground (arith, hit);
        leaves = λ x. ground (arith, hit, split x, exposed-absent p sibs gone, zero_refs, here);
        counted = λ held z c. rw hit c.2;
        refs = λ held c. omega (arith, c.0, zero_refs, ap held here);
        paths = λ q other. ground (arith, hit, here, other);
        spans = λ page_size t. (t.0, rw hit t.2);
      }

  -- The unlocked leaves of a node's subtree.
  abbrev pub own_leaves : Node → Forest → List ℕ
  own_leaves n bare = if n.ref_count == 0 then n.uuid ∷ [] else []
  own_leaves n (node m below beside) = collect_leave_nodes (node m below beside)

  collect-node :
      (n : Node) (kids sibs : Forest)
      → collect_leave_nodes (node n kids sibs) ≡ collect_leave_nodes sibs ++ own_leaves n kids
  unfolding collect_leave_nodes
  collect-node n bare sibs = refl
  collect-node n (node m below beside) sibs = refl

  count-node :
      (n : Node) (kids sibs : Forest) (x : ℕ)
      → count x (collect_leave_nodes (node n kids sibs))
        ≡ count x (collect_leave_nodes sibs) + count x (own_leaves n kids)
  count-node n kids sibs x =
      ap (count x) (collect-node n kids sibs)
      ∙ count-append x (collect_leave_nodes sibs) (own_leaves n kids)

  find_leaf_beside :
      (n : Node) (kids sibs : Forest)
      → (n.uuid == p) ≡ false
      → count p (uuids kids) ≡ 0
      → find_leaf p (node n kids sibs) ≡ find_leaf p sibs
  unfolding find_leaf
  find_leaf_beside n bare sibs other gone = rw other refl
  find_leaf_beside n (node m below beside) sibs other gone =
      rw (other, find_leaf-absent p (node m below beside) gone) refl

  beside_path :
      (n : Node) (kids sibs : Forest) (q : ℕ)
      → path_value q (del_child p sibs) ≡ path_value q sibs
      → path_value q (node n kids (del_child p sibs)) ≡ path_value q (node n kids sibs)
  unfolding path_value
  beside_path n kids sibs q e = rw e refl

  below_path :
      (n : Node) (kids sibs : Forest) (q : ℕ)
      → path_value q (del_child p kids) ≡ path_value q kids
      → path_value q (node n (del_child p kids) sibs) ≡ path_value q (node n kids sibs)
  unfolding path_value
  below_path n kids sibs q e = rw e refl

  beside-Removed :
      (n : Node) (kids sibs : Forest)
      → (n.uuid == p) ≡ false
      → count p (uuids kids) ≡ 0
      → Removed sibs
      → Removed (node n kids sibs)
  unfolding del_child exposed
  beside-Removed n kids sibs other gone r =
      let del : del_child p (node n kids sibs) ≡ node n kids (del_child p sibs) =
        rw (other, del_child-absent p kids gone) refl in
      let exp : exposed p (node n kids sibs) ≡ exposed p sibs =
        rw (only_child_absent p kids gone, exposed-absent p kids gone) refl in
      record {
        taken = r.taken;
        found = find_leaf_beside n kids sibs other gone ∙ r.found;
        unlocked = r.unlocked;
        named = r.named;
        sums = λ measure. omega (arith, ap (total measure) del, r.sums measure);
        leaves = λ x. omega (
          arith,
          r.leaves x,
          ap (λ f. count x (collect_leave_nodes f)) del,
          ap (count x) exp,
          count-node n kids sibs x,
          count-node n kids (del_child p sibs) x,
        );
        counted = λ held z c. subst (IsCounted held) (sym del) (c.0, c.1, r.counted held z c.2);
        refs = λ held c. r.refs held c.2;
        paths =
            λ q elsewhere. ap (path_value q) del ∙ beside_path n kids sibs q (r.paths q elsewhere);
        spans = λ page_size t.
            let (own, rest) = r.spans page_size t.2 in
            (own, subst (IsTree page_size) (sym del) (t.0, t.1, rest));
      }

  find_leaf_below :
      (n m : Node) (below beside sibs : Forest) (taken : Node)
      → (n.uuid == p) ≡ false
      → find_leaf p (node m below beside) ≡ some taken
      → find_leaf p (node n (node m below beside) sibs) ≡ some taken
  unfolding find_leaf
  find_leaf_below n m below beside sibs taken other e = rw (other, e) refl

  exposed_below :
      (n : Node) (kids sibs : Forest)
      → count p (uuids sibs) ≡ 0
      → exposed p (node n kids sibs)
        ≡ (if only_child p kids && (n.ref_count == 0) then n.uuid ∷ [] else exposed p kids)
  unfolding exposed
  exposed_below n kids sibs gone = rw (exposed-absent p sibs gone, append-nil (exposed p kids)) refl

  own_leaves-kept :
      (n : Node) (kids : Forest) (m : Node) (below beside : Forest) (x : ℕ)
      → only_child p kids ≡ false
      → del_child p kids ≡ node m below beside
      → Removed kids
      → count x (own_leaves n (del_child p kids)) + once x p
        ≡ count x (collect_leave_nodes kids)
          + count x
              (if only_child p kids && (n.ref_count == 0) then n.uuid ∷ [] else exposed p kids)
  own_leaves-kept n kids m below beside x several e r = rw several (
      omega (
        arith,
        ap (λ f. count x (own_leaves n f)) e,
        ap (λ f. count x (collect_leave_nodes f)) e,
        r.leaves x,
      ))

  -- What is left of the children has leaves of its own, or the parent is one.
  own_leaves-del :
      (n : Node) (kids : Forest) (x : ℕ)
      → count p (collect_leave_nodes kids) ≡ 1
      → count p (uuids kids) ≡ 1
      → Removed kids
      → count x (own_leaves n (del_child p kids)) + once x p
        ≡ count x (collect_leave_nodes kids)
          + count x
              (if only_child p kids && (n.ref_count == 0) then n.uuid ∷ [] else exposed p kids)
  unfolding del_child exposed collect_leave_nodes count
  own_leaves-del n bare x leaf one r = absurd (ground arith)
  own_leaves-del n (node m bare bare) x leaf one r = elim (Bool-cases (m.uuid == p)) [
    | inl hit ↦ ground (arith, hit, leaf)
    | inr other ↦ ground (arith, other, r.leaves x)
  ]
  own_leaves-del n (node m (node a b c) bare) x leaf one r = elim (Bool-cases (m.uuid == p)) [
    | inl hit ↦
        let deep = node a b c in
        absurd (ground (arith, hit, leaf, one, leaf-uuids p deep, node-uuids 0 m deep bare p))
    | inr other ↦
        own_leaves-kept n (node m (node a b c) bare) m (del_child p (node a b c)) bare x other
          (rw other refl) r
  ]
  own_leaves-del n (node m below (node o inner outer)) x leaf one r =
      elim (Bool-cases (m.uuid == p)) [
        | inl hit ↦ rw hit (ground (arith, hit, r.leaves x))
        | inr other ↦ rw other (ground (arith, other, r.leaves x))
      ]

  below-Removed :
      (n m : Node) (below beside sibs : Forest)
      → let kids = node m below beside in
        (n.uuid == p) ≡ false
        → count p (uuids sibs) ≡ 0
        → count p (uuids kids) ≡ 1
        → count p (collect_leave_nodes kids) ≡ 1
        → Removed kids
        → Removed (node n kids sibs)
  below-Removed n m below beside sibs other gone one leaf r =
      let kids = node m below beside in
      let del : del_child p (node n kids sibs) ≡ node n (del_child p kids) sibs =
        unfold del_child in rw (other, del_child-absent p sibs gone) refl in
      let own : List ℕ =
        if only_child p kids && (n.ref_count == 0) then n.uuid ∷ [] else exposed p kids in
      let exp : exposed p (node n kids sibs) ≡ own = exposed_below n kids sibs gone in
      record {
        taken = r.taken;
        found = find_leaf_below n m below beside sibs r.taken other r.found;
        unlocked = r.unlocked;
        named = r.named;
        sums = λ measure. omega (arith, ap (total measure) del, r.sums measure);
        leaves = λ x. omega (
          arith,
          own_leaves-del n kids x leaf one r,
          ap (λ f. count x (collect_leave_nodes f)) del,
          ap (count x) exp,
          count-node n kids sibs x,
          count-node n (del_child p kids) sibs x,
        );
        counted = λ held z c.
            let none_held : held r.taken.uuid ≡ 0 = ap held r.named ∙ z in
            subst (IsCounted held) (sym del)
              (omega (arith, c.0, r.sums (λ n. held n.uuid), none_held), r.counted held z c.1, c.2);
        refs = λ held c. r.refs held c.1;
        paths =
            λ q elsewhere. ap (path_value q) del ∙ below_path n kids sibs q (r.paths q elsewhere);
        spans = λ page_size t.
            let (own, rest) = r.spans page_size t.1 in
            (own, subst (IsTree page_size) (sym del) (t.0, rest, t.2));
      }

  pub del_child-Removed :
      (f : Forest)
      → ((x : ℕ) → count x (uuids f) ≤ 1)
      → count p (collect_leave_nodes f) ≡ 1
      → Removed f
  unfolding collect_leave_nodes count
  del_child-Removed bare d one = absurd (omega (arith, one))
  del_child-Removed (node n bare sibs) d one =
      let names = node-uuids 0 n bare sibs p in
      elim (Bool-cases (n.uuid == p)) [
        | inl hit ↦
            here-Removed n sibs ((==_iff n.uuid p).0 hit) (ground (arith, hit, names, d p)) one
        | inr other ↦ beside-Removed n bare sibs other refl (
            del_child-Removed sibs (λ x. omega (arith, d x, node-uuids 0 n bare sibs x))
              (ground (arith, other, one, count-node n bare sibs p)))
      ]
  del_child-Removed (node n (node m below beside) sibs) d one =
      let kids = node m below beside in
      let names = node-uuids 0 n kids sibs p in
      let leaves = count-node n kids sibs p in
      elim (Bool-cases (n.uuid == p)) [
        | inl hit ↦
            absurd
              (ground (arith, hit, names, leaves, one, d p, leaf-uuids p sibs, leaf-uuids p kids))
        | inr other ↦ elim (Bool-cases (count p (collect_leave_nodes sibs) == 0)) [
          | inl not_beside ↦
              let leaf : count p (collect_leave_nodes kids) ≡ 1 =
                ground (arith, leaves, one, not_beside) in
              let in_kids : count p (uuids kids) ≡ 1 =
                omega (arith, leaf, leaf-uuids p kids, names, d p) in
              below-Removed n m below beside sibs other (omega (arith, names, in_kids, d p)) in_kids
                leaf
                (del_child-Removed (node m below beside)
                  (λ x. omega (arith, d x, node-uuids 0 n kids sibs x)) leaf)
          | inr there ↦
              let gone : count p (uuids kids) ≡ 0 =
                ground (arith, there, leaf-uuids p sibs, names, d p) in
              beside-Removed n kids sibs other gone (
                del_child-Removed sibs (λ x. omega (arith, d x, node-uuids 0 n kids sibs x))
                  (omega (arith, leaves, one, leaf-uuids p kids, gone)))
        ]
      ]
