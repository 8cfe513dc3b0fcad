-- ===== src/Radix/Leaves.antt =====
-- The unlocked leaves of a tree, and a tree without the node that is looked for.
use free_token_intel.Prelude.{
  ℕ, ◌≤◌, ◌<◌, ◌≡◌, refl, inl, inr, true, false, none, List, [], ◌∷◌, arith, ◌==◌, if◌then◌else◌,
  Bool-cases, count, count-append,
}
use free_token_intel.Radix.{Forest, bare, node}
use free_token_intel.Radix.Names.{uuids, node-uuids}
use free_token_intel.Radix.Evict.{collect_leave_nodes, find_leaf, del_child, only_child, exposed}

abbrev pub once : ℕ → ℕ → ℕ
once x p = if p == x then 1 else 0

pub leaf-uuids : (x : ℕ) (f : Forest) → count x (collect_leave_nodes f) ≤ count x (uuids f)
unfolding collect_leave_nodes count
leaf-uuids x bare = omega arith
leaf-uuids x (node n bare sibs) =
    let own : List ℕ = if n.ref_count == 0 then n.uuid ∷ [] else [] in
    ground (arith, leaf-uuids x sibs, count-append x (collect_leave_nodes sibs) own)
leaf-uuids x (node n (node m below beside) sibs) =
    let kids = node m below beside in
    ground (
      arith,
      leaf-uuids x sibs,
      leaf-uuids x (node m below beside),
      node-uuids 0 n kids sibs x,
      count-append x (collect_leave_nodes sibs) (collect_leave_nodes kids),
    )

module _ (p : ℕ) where
  pub del_child-absent : (f : Forest) → count p (uuids f) ≡ 0 → del_child p f ≡ f
  unfolding del_child
  del_child-absent bare h = refl
  del_child-absent (node n kids sibs) h =
      let names = node-uuids 0 n kids sibs p in
      ground (
        arith,
        names,
        del_child-absent kids (omega (arith, names)),
        del_child-absent sibs (omega (arith, names)),
      )

  pub only_child-uuids : (f : Forest) → only_child p f ≡ true → 0 < count p (uuids f)
  unfolding count
  only_child-uuids bare e = absurd (ground arith)
  only_child-uuids (node n kids bare) e = ground (arith, e)
  only_child-uuids (node n kids (node m below beside)) e = absurd (ground arith)

  pub only_child_absent : (f : Forest) → count p (uuids f) ≡ 0 → only_child p f ≡ false
  only_child_absent f h = elim (Bool-cases (only_child p f)) [
    | inl e ↦ absurd (omega (arith, only_child-uuids f e, h))
    | inr e ↦ e
  ]

  pub exposed-absent : (f : Forest) → count p (uuids f) ≡ 0 → exposed p f ≡ []
  unfolding exposed
  exposed-absent bare h = refl
  exposed-absent (node n kids sibs) h =
      let names = node-uuids 0 n kids sibs p in
      let gone : count p (uuids kids) ≡ 0 = omega (arith, names) in
      rw
        (
          only_child_absent kids gone,
          exposed-absent kids gone,
          exposed-absent sibs (omega (arith, names)),
        )
        refl

  pub find_leaf-absent : (f : Forest) → count p (uuids f) ≡ 0 → find_leaf p f ≡ none
  unfolding find_leaf
  find_leaf-absent bare h = refl
  find_leaf-absent (node n bare sibs) h =
      let names = node-uuids 0 n bare sibs p in
      ground (arith, names, find_leaf-absent sibs (omega (arith, names)))
  find_leaf-absent (node n (node m below beside) sibs) h =
      let kids = node m below beside in
      let names = node-uuids 0 n kids sibs p in
      ground (
        arith,
        names,
        find_leaf-absent (node m below beside) (omega (arith, names)),
        find_leaf-absent sibs (omega (arith, names)),
      )
