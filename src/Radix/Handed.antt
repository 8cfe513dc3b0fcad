-- ===== src/Radix/Handed.antt =====
-- The slots of the handle that an insertion returns.
use free_token_intel.Prelude.{
  ℕ, zero, suc, ◌+◌, ◌≤◌, ◌<◌, ◌≡◌, refl, sym, ap, subst, ◌∙◌, ◌≢◌, inl, inr, true, false, some,
  List, [], ◌∷◌, ◌++◌, append_assoc, append-nil, arith, ◌==◌, Bool-cases, length, take, drop,
  length-take, count,
}
use free_token_intel.Align.{align_down, align_down-le}
use free_token_intel.Radix.{
  Node, Forest, bare, node, compare_key, Walked, tree_walk, add_child, set_parent, Handle,
  RadixCache, new_node, insert_walked, insert_prefix,
}
use free_token_intel.Radix.Prefixes.{IsAligned, align_down-IsAligned}
use free_token_intel.Radix.View.{
  stored, IsTree, Place, place, prefix_node, suffix_node, stored_beside, stored_inside,
  stored_below,
}
use free_token_intel.Radix.Walk.{walk_beside, walk_inside, walk_below, tree_walk-Walks}
use free_token_intel.Radix.Locks.{path_value, get_matched_indices}
use free_token_intel.Radix.Names.{
  uuids, IsNamed, node-uuids, kids-IsNamed, sibs-IsNamed, tree_walk-Renames, Renames-IsNamed,
}
use free_token_intel.Radix.Names
use free_token_intel.Radix.Grow.{
  grown, IsRest, IsRest-drop, set_parent_beside, set_parent_below, kids_apart, sibs_apart,
  attach_split,
}
use free_token_intel.Radix.Cache.{IsCache, resident, walked-IsRest, insert_prefix-Inserted}
use free_token_intel.Radix.Found.{
  path_value-here, path_value-below, path_value-beside, tree_walk-Found, Found-on, Found-indices,
}
use free_token_intel.Radix.Locking.{IsOn}
use free_token_intel.Radix.Held.{next_uuid-le}

not_here :
    (u p : ℕ) (n : Node) (kids sibs : Forest)
    → IsNamed u (node n kids sibs)
    → u ≤ p
    → (p ≢ n.uuid) × (count p (uuids kids) ≡ 0)
not_here u p n kids sibs v h =
    let names = node-uuids u n kids sibs p in
    (λ same. ground (arith, names, v.old p h, same), omega (arith, names, v.old p h))

module _ (page_size : ℕ) (pos : 0 < page_size) where
  split_path :
      (m u tic : ℕ) (new n : Node) (kids sibs : Forest)
      → IsNamed u (node n kids sibs)
      → new.uuid ≡ suc u
      → path_value new.uuid
          (node (prefix_node m u tic n) (node (suffix_node m n) kids (node new bare bare)) sibs)
        ≡ some (take m n.value ++ new.value)
  split_path m u tic new n kids sibs v e =
      let (other, gone) = not_here u new.uuid n kids sibs v (omega (arith, e)) in
      path_value-below new.uuid (prefix_node m u tic n)
        (node (suffix_node m n) kids (node new bare bare)) sibs new.value
        (λ same. omega (arith, same, e))
        (path_value-beside new.uuid (suffix_node m n) kids (node new bare bare) other gone
          ∙ path_value-here new.uuid new bare bare refl)

  pub grown-path_value :
      (tic u : ℕ) (new : Node) (f : Forest) (x slots : List ℕ)
      → new.uuid ≡ (tree_walk page_size tic u f x).next_uuid
      → IsTree page_size f
      → IsNamed u f
      → IsRest page_size pos new (tree_walk page_size tic u f x) x slots
      → path_value new.uuid (grown page_size pos new (tree_walk page_size tic u f x))
        ≡ some (stored page_size f x ++ new.value)
  unfolding tree_walk add_child stored
  grown-path_value tic u new bare x slots z t v h = path_value-here new.uuid new bare bare refl
  grown-path_value tic u new (node n kids sibs) x slots z t v h =
      let f = node n kids sibs in
      let Goal : Walked → Type 0 = λ w.
        path_value new.uuid (grown page_size pos new w)
        ≡ some (stored page_size f x ++ new.value) in
      let fresh =
        next_uuid-le u f (tree_walk page_size tic u f x) (tree_walk-Renames page_size tic u f x) in
      let (other, gone) = not_here u new.uuid n kids sibs v (omega (arith, fresh, z)) in
      elim (place page_size n x) [
        | Place.beside out ↦
            let e = walk_beside page_size pos tic u n kids sibs x t.0 out in
            let w = tree_walk page_size tic u sibs x in
            let h' =
              IsRest-drop page_size pos new (tree_walk page_size tic u f x) w 0 x slots
                (omega (arith, ap (λ w. w.prefix_len) e)) h in
            let put =
              set_parent_beside page_size pos new n kids w.forest w.reached t.0
                (λ r. rw (h'.key, Names.reached_none page_size tic u sibs x r) out)
                (λ p r. sibs_apart page_size pos tic u n kids sibs v x p r) in
            let inner =
              grown-path_value tic u new sibs x slots (z ∙ ap (λ w. w.next_uuid) e) t.2
                (sibs-IsNamed u n kids sibs v) h' in
            subst Goal (sym e) (
              ap (path_value new.uuid) put
              ∙ path_value-beside new.uuid n kids (grown page_size pos new w) other gone
              ∙ inner
              ∙ ap (λ s. some (s ++ new.value))
                  (sym (stored_beside page_size pos n t.0 kids sibs x out)))
        | Place.inside first part ↦
            let e = walk_inside page_size pos tic u n kids sibs x t.0 first part in
            let m = align_down (compare_key n.key x) page_size in
            let ek : new.key ≡ drop m x = h.key ∙ ap (λ w. drop w.prefix_len x) e in
            let put =
              attach_split page_size pos tic u new n kids sibs x [] t.0 first part h.span ek in
            subst Goal (sym e) (
              ap (path_value new.uuid) put
              ∙ split_path m u tic new n kids sibs v (z ∙ ap (λ w. w.next_uuid) e)
              ∙ ap (λ s. some (s ++ new.value))
                  (sym (stored_inside page_size pos n t.0 kids sibs x first part)))
        | Place.below all ↦
            let e = walk_below page_size pos tic u n kids sibs x t.0 all in
            let x' = drop (length n.key) x in
            let w = tree_walk page_size tic u kids x' in
            let h' =
              IsRest-drop page_size pos new (tree_walk page_size tic u f x) w (length n.key) x slots
                (ap (λ w. w.prefix_len) e) h in
            let n' : Node = record n { timestamp = tic } in
            let put =
              set_parent_below page_size pos new n' w.forest sibs w.reached
                (λ p r. kids_apart page_size pos tic u n kids sibs v x' p r) in
            let inner =
              grown-path_value tic u new kids x' (drop (length n.key) slots)
                (z ∙ ap (λ w. w.next_uuid) e) t.1 (kids-IsNamed u n kids sibs v) h' in
            subst Goal (sym e) (
              ap (path_value new.uuid) put
              ∙ path_value-below new.uuid n' (grown page_size pos new w) sibs
                  (stored page_size kids x' ++ new.value) other inner
              ∙ ap (λ s. some s)
                  (sym (append_assoc n.value (stored page_size kids x') new.value)
                    ∙ ap (λ s. s ++ new.value)
                        (sym (stored_below page_size pos n t.0 kids sibs x all))))
      ]

abbrev HandlesAll : RadixCache → List ℕ → List ℕ → RadixCache × ℕ × Handle → Type 0
HandlesAll c input slots r =
    (get_matched_indices r.0 r.2
      ≡ some (resident c input ++ drop (length (resident c input)) slots))
    × IsOn r.2 r.0

drop_all : (xs : List ℕ) (n : ℕ) → length xs ≤ n → drop n xs ≡ []
drop_all [] zero h = refl
drop_all [] (suc n) h = refl
drop_all (x ∷ xs) zero h = absurd (omega (arith, h))
drop_all (x ∷ xs) (suc n) h = drop_all xs n (omega (arith, h))

module _ (c : RadixCache) (v : IsCache c) (tic now : ℕ) (input slots : List ℕ)
    (whole : IsAligned c.page_size (length input)) (paired : length slots ≡ length input) where
  abbrev walked : Walked
  walked = tree_walk c.page_size tic c.next_uuid c.root input

  all_there :
      (walked.prefix_len == length input) ≡ true
      → HandlesAll c input slots (
        record c { root = walked.forest; next_uuid = walked.next_uuid },
        walked.prefix_len,
        record { cached_len = length input; node = walked.reached },
      )
  all_there all =
      let walks = tree_walk-Walks c.page_size v.pages tic c.next_uuid c.root input v.tree in
      let found = tree_walk-Found c.page_size v.pages tic c.next_uuid c.root input v.tree v.named in
      let names =
        Renames-IsNamed c.next_uuid c.root walked
          (tree_walk-Renames c.page_size tic c.next_uuid c.root input) v.named in
      let r = resident c input in
      let none_left : drop (length r) slots ≡ [] =
        drop_all slots (length r) (ground (arith, all, walks.got, paired)) in
      let full : r ++ drop (length r) slots ≡ r = ap (λ s. r ++ s) none_left ∙ append-nil r in
      let d : RadixCache = record c { root = walked.forest; next_uuid = walked.next_uuid } in
      (
        Found-indices d walked.reached (length input) r found ∙ ap (λ s. some s) (sym full),
        Found-on walked.reached walked.forest walked.next_uuid r found names,
      )

  with_rest :
      (walked.prefix_len == length input) ≡ false
      → let d : RadixCache = record c {
        root =
            set_parent c.page_size (new_node walked now input slots) walked.reached walked.forest;
        next_uuid = suc walked.next_uuid;
        evictable_size = c.evictable_size + length (drop walked.prefix_len input);
      } in
        IsCache d
        → HandlesAll c input slots (
          d,
          walked.prefix_len,
          record { cached_len = length input; node = some walked.next_uuid },
        )
  unfolding get_matched_indices path_value
  with_rest more sound =
      let walks = tree_walk-Walks c.page_size v.pages tic c.next_uuid c.root input v.tree in
      let new = new_node walked now input slots in
      let rest = walked-IsRest c tic now input slots v whole paired more in
      let path =
        grown-path_value c.page_size v.pages tic c.next_uuid new c.root input slots refl v.tree
          v.named rest in
      let full = path ∙ ap (λ i. some (resident c input ++ drop i slots)) walks.got in
      let tree = grown c.page_size v.pages new walked in
      (full, Found-on (some walked.next_uuid) tree (suc walked.next_uuid) _ full sound.named)

  pub insert_walked-HandlesAll :
      IsCache (insert_walked c now input slots walked).0
      → HandlesAll c input slots (insert_walked c now input slots walked)
  insert_walked-HandlesAll = elim (Bool-cases (walked.prefix_len == length input)) [
    | inl all ↦ rw all (λ sound. all_there all)
    | inr more ↦ rw more (λ sound. with_rest more sound)
  ]

-- The handle that an insertion returns is on the cache, and its indices are the slots that were
-- resident of the prompt's whole pages before and, behind them, the prompt's own.
pub insert_prefix-get_matched_indices :
    (c : RadixCache) (tic now : ℕ) (input_ids indices : List ℕ)
    → IsCache c
    → length indices ≡ length input_ids
    → let n = align_down (length input_ids) c.page_size in
      let old = resident c (take n input_ids) in
      let r = insert_prefix c tic now input_ids indices in
      (get_matched_indices r.0 r.2 ≡ some (old ++ drop (length old) (take n indices)))
      × IsOn r.2 r.0
unfolding insert_prefix
insert_prefix-get_matched_indices c tic now input_ids indices v paired =
    let n = align_down (length input_ids) c.page_size in
    let e : length (take n input_ids) ≡ n =
      omega (arith, length-take n input_ids, align_down-le (length input_ids) c.page_size) in
    insert_walked-HandlesAll c v tic now (take n input_ids) (take n indices)
      (subst (IsAligned c.page_size) (sym e) (align_down-IsAligned (length input_ids) c.page_size))
      (omega
        (arith, e, length-take n indices, paired, align_down-le (length input_ids) c.page_size))
      (insert_prefix-Inserted c tic now input_ids indices v paired).sound
