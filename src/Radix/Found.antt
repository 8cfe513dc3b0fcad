-- ===== src/Radix/Found.antt =====
-- The slots of the handle that a match returns.
use free_token_intel.Prelude.{
  ℕ, ◌<◌, ◌≡◌, refl, sym, ap, subst, ◌∙◌, ◌≢◌, inl, inr, Option, none, some, List, [], ◌++◌,
  append-nil, arith, ◌==◌, Bool-cases, length, take, drop, count,
}
use free_token_intel.Align.{align_down}
use free_token_intel.Radix.{
  Node, Forest, bare, node, compare_key, split_at, or_here, tree_walk, RadixCache, match_prefix,
}
use free_token_intel.Radix.View.{
  stored, IsTree, Place, place, stored_beside, stored_inside, stored_below,
}
use free_token_intel.Radix.Walk.{walk_beside, walk_inside, walk_below}
use free_token_intel.Radix.Locks.{path_value, get_matched_indices}
use free_token_intel.Radix.Names.{
  uuids, IsNamed, node-uuids, kids-IsNamed, sibs-IsNamed, tree_walk-Renames, Renames-IsNamed,
}
use free_token_intel.Radix.Grow.{kids_apart, sibs_apart}
use free_token_intel.Radix.Cache.{IsCache, resident}
use free_token_intel.Radix.Locking.{IsOn}

pub path_value-absent : (p : ℕ) (f : Forest) → count p (uuids f) ≡ 0 → path_value p f ≡ none
unfolding path_value
path_value-absent p bare h = refl
path_value-absent p (node n kids sibs) h =
    let names = node-uuids 0 n kids sibs p in
    ground (
      arith,
      names,
      path_value-absent p kids (omega (arith, names)),
      path_value-absent p sibs (omega (arith, names)),
    )

pub path_value-uuids :
    (p : ℕ) (f : Forest) (v : List ℕ) → path_value p f ≡ some v → 0 < count p (uuids f)
path_value-uuids p f v e = elim (Bool-cases (count p (uuids f) == 0)) [
  | inl gone ↦ absurd (ground (arith, e, path_value-absent p f (ground (arith, gone))))
  | inr there ↦ ground (arith, there)
]

module _ (p : ℕ) (n : Node) (kids sibs : Forest) where
  pub path_value-here : p ≡ n.uuid → path_value p (node n kids sibs) ≡ some n.value
  unfolding path_value
  path_value-here h = ground (arith, h)

  pub path_value-below :
      (v : List ℕ)
      → p ≢ n.uuid
      → path_value p kids ≡ some v
      → path_value p (node n kids sibs) ≡ some (n.value ++ v)
  unfolding path_value
  path_value-below v other e = ground (arith, other, e)

  pub path_value-beside :
      p ≢ n.uuid → count p (uuids kids) ≡ 0 → path_value p (node n kids sibs) ≡ path_value p sibs
  unfolding path_value
  path_value-beside other gone = ground (arith, other, path_value-absent p kids gone)

-- What the end of a walk is worth: nothing at the root, else the path to it.
abbrev pub Found : Option ℕ → Forest → List ℕ → Type 0
Found none f slots = slots ≡ []
Found (some p) f slots = path_value p f ≡ some slots

beside-Found :
    (r : Option ℕ) (n : Node) (kids sibs : Forest) (slots : List ℕ)
    → ((p : ℕ) → r ≡ some p → (p ≢ n.uuid) × (count p (uuids kids) ≡ 0))
    → Found r sibs slots
    → Found r (node n kids sibs) slots
beside-Found none n kids sibs slots far e = e
beside-Found (some p) n kids sibs slots far e =
    let (other, gone) = far p refl in path_value-beside p n kids sibs other gone ∙ e

below-Found :
    (r : Option ℕ) (n : Node) (kids sibs : Forest) (slots : List ℕ)
    → ((p : ℕ) → r ≡ some p → p ≢ n.uuid)
    → Found r kids slots
    → Found (or_here r n.uuid) (node n kids sibs) (n.value ++ slots)
below-Found none n kids sibs slots far e =
    path_value-here n.uuid n kids sibs refl
    ∙ ap (λ v. some v) (sym (ap (λ s. n.value ++ s) e ∙ append-nil n.value))
below-Found (some p) n kids sibs slots far e = path_value-below p n kids sibs slots (far p refl) e

split-Found :
    (m u tic : ℕ) (n : Node) (kids sibs : Forest)
    → Found (some u) (split_at m u tic n kids sibs) (take m n.value)
unfolding split_at
split-Found m u tic n kids sibs = path_value-here u _ _ _ refl

module _ (page_size : ℕ) (pos : 0 < page_size) where
  pub tree_walk-Found :
      (tic u : ℕ) (f : Forest) (x : List ℕ)
      → IsTree page_size f
      → IsNamed u f
      → let w = tree_walk page_size tic u f x in Found w.reached w.forest (stored page_size f x)
  unfolding tree_walk stored
  tree_walk-Found tic u bare x t v = refl
  tree_walk-Found tic u (node n kids sibs) x t v = elim (place page_size n x) [
    | Place.beside out ↦
        let w = tree_walk page_size tic u sibs x in
        subst (λ w. Found w.reached w.forest (stored page_size (node n kids sibs) x))
          (sym (walk_beside page_size pos tic u n kids sibs x t.0 out))
          (subst (Found w.reached (node n kids w.forest))
            (sym (stored_beside page_size pos n t.0 kids sibs x out))
            (beside-Found w.reached n kids w.forest _
              (sibs_apart page_size pos tic u n kids sibs v x)
              (tree_walk-Found tic u sibs x t.2 (sibs-IsNamed u n kids sibs v))))
    | Place.inside first part ↦
        let m = align_down (compare_key n.key x) page_size in
        subst (λ w. Found w.reached w.forest (stored page_size (node n kids sibs) x))
          (sym (walk_inside page_size pos tic u n kids sibs x t.0 first part))
          (subst (Found (some u) (split_at m u tic n kids sibs))
            (sym (stored_inside page_size pos n t.0 kids sibs x first part))
            (split-Found m u tic n kids sibs))
    | Place.below all ↦
        let x' = drop (length n.key) x in
        let w = tree_walk page_size tic u kids x' in
        let n' : Node = record n { timestamp = tic } in
        subst (λ w. Found w.reached w.forest (stored page_size (node n kids sibs) x))
          (sym (walk_below page_size pos tic u n kids sibs x t.0 all))
          (subst (Found (or_here w.reached n.uuid) (node n' w.forest sibs))
            (sym (stored_below page_size pos n t.0 kids sibs x all))
            (below-Found w.reached n' w.forest sibs _
              (λ p r. (kids_apart page_size pos tic u n kids sibs v x' p r).0)
              (tree_walk-Found tic u kids x' t.1 (kids-IsNamed u n kids sibs v))))
  ]

pub Found-on :
    (r : Option ℕ) (f : Forest) (u : ℕ) (slots : List ℕ)
    → Found r f slots
    → IsNamed u f
    → (p : ℕ) → r ≡ some p
    → count p (uuids f) ≡ 1
Found-on none f u slots e v p h = absurd (ground arith)
Found-on (some q) f u slots e v p h =
    let same : q ≡ p = ground (arith, h) in
    omega (arith, ap (λ i. count i (uuids f)) same, path_value-uuids q f slots e, v.once q)

pub Found-indices :
    (c : RadixCache) (r : Option ℕ) (len : ℕ) (slots : List ℕ)
    → Found r c.root slots
    → get_matched_indices c (record { cached_len = len; node = r }) ≡ some slots
unfolding get_matched_indices
Found-indices c none len slots e = ap (λ s. some s) (sym e)
Found-indices c (some p) len slots e = e

-- The handle that a match returns is on the cache, and its indices are the slots of the longest
-- resident prefix of the prompt.
pub match_prefix-get_matched_indices :
    (c : RadixCache) (tic : ℕ) (input : List ℕ)
    → IsCache c
    → let m = match_prefix c tic input in
      (get_matched_indices m.0 m.2 ≡ some (resident c input)) × IsOn m.2 m.0
unfolding match_prefix
match_prefix-get_matched_indices c tic input v =
    let w = tree_walk c.page_size tic c.next_uuid c.root input in
    let found = tree_walk-Found c.page_size v.pages tic c.next_uuid c.root input v.tree v.named in
    let names =
      Renames-IsNamed c.next_uuid c.root w
        (tree_walk-Renames c.page_size tic c.next_uuid c.root input) v.named in
    let d : RadixCache = record c { root = w.forest; next_uuid = w.next_uuid } in
    (
      Found-indices d w.reached w.prefix_len (resident c input) found,
      Found-on w.reached w.forest w.next_uuid (resident c input) found names,
    )
