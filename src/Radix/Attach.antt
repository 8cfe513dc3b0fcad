-- ===== src/Radix/Attach.antt =====
-- New nodes below old ones: what `add_child`, `attach` and `set_parent` do to a tree and its uuids.
use free_token_intel.Prelude.{
  ℕ, suc, ◌+◌, ◌≤◌, inl, inr, Option, none, some, arith, ◌==◌, if◌then◌else◌, Bool-cases, count,
  count-append,
}
use free_token_intel.Radix.{Node, Forest, bare, node, same_page, add_child, attach, set_parent}
use free_token_intel.Radix.View.{IsSpan, IsTree}
use free_token_intel.Radix.Names.{uuids, IsNamed, node-uuids}

module _ (page_size : ℕ) (new : Node) (span : IsSpan page_size new) where
  add_child-IsTree :
      (f : Forest) → IsTree page_size f → IsTree page_size (add_child page_size new f)
  unfolding add_child
  add_child-IsTree bare t = (span, tt, tt)
  add_child-IsTree (node n kids sibs) t = elim (Bool-cases (same_page page_size n.key new.key)) [
    | inl same ↦ rw same (span, tt, t.2)
    | inr other ↦ rw other (t.0, t.1, add_child-IsTree sibs t.2)
  ]

  attach-IsTree :
      (p : ℕ) (f : Forest) → IsTree page_size f → IsTree page_size (attach page_size new p f)
  unfolding attach
  attach-IsTree p bare t = tt
  attach-IsTree p (node n kids sibs) t = elim (Bool-cases (n.uuid == p)) [
    | inl here ↦ rw here (t.0, add_child-IsTree kids t.1, t.2)
    | inr other ↦ rw other (t.0, attach-IsTree p kids t.1, attach-IsTree p sibs t.2)
  ]

  pub set_parent-IsTree :
      (r : Option ℕ) (f : Forest)
      → IsTree page_size f
      → IsTree page_size (set_parent page_size new r f)
  set_parent-IsTree none f t = add_child-IsTree f t
  set_parent-IsTree (some p) f t = attach-IsTree p f t

module _ (page_size : ℕ) (new : Node) where
  add_child-uuids :
      (f : Forest) (x : ℕ)
      → count x (uuids (add_child page_size new f))
        ≤ count x (uuids f) + (if new.uuid == x then 1 else 0)
  unfolding add_child count
  add_child-uuids bare x = omega arith
  add_child-uuids (node n kids sibs) x = elim (Bool-cases (same_page page_size n.key new.key)) [
    | inl same ↦ rw same (omega (arith, count-append x (uuids kids) (uuids sibs)))
    | inr other ↦ rw other (
        omega (
          arith,
          add_child-uuids sibs x,
          count-append x (uuids kids) (uuids sibs),
          count-append x (uuids kids) (uuids (add_child page_size new sibs)),
        ))
  ]

  attach-uuids :
      (p : ℕ) (f : Forest) (x : ℕ)
      → count x (uuids (attach page_size new p f))
        ≤ count x (uuids f) + (if new.uuid == x then count p (uuids f) else 0)
  unfolding attach
  attach-uuids p bare x = omega arith
  attach-uuids p (node n kids sibs) x =
      let old = node-uuids 0 n kids sibs x in
      let at = node-uuids 0 n kids sibs p in
      elim (Bool-cases (n.uuid == p)) [
        | inl here ↦ rw here (
            ground (
              arith,
              here,
              old,
              at,
              node-uuids 0 n (add_child page_size new kids) sibs x,
              add_child-uuids kids x,
            ))
        | inr other ↦ rw other (
            ground (
              arith,
              old,
              at,
              node-uuids 0 n (attach page_size new p kids) (attach page_size new p sibs) x,
              attach-uuids p kids x,
              attach-uuids p sibs x,
            ))
      ]

  pub set_parent-IsNamed :
      (r : Option ℕ) (f : Forest)
      → IsNamed new.uuid f
      → IsNamed (suc new.uuid) (set_parent page_size new r f)
  set_parent-IsNamed none f v = record {
    once = λ x. ground (arith, add_child-uuids f x, v.once x, v.old x);
    old = λ x h. ground (arith, add_child-uuids f x, v.old x);
  }
  set_parent-IsNamed (some p) f v = record {
    once = λ x. ground (arith, attach-uuids p f x, v.once x, v.old x, v.once p);
    old = λ x h. ground (arith, attach-uuids p f x, v.old x);
  }
