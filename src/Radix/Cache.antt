-- ===== src/Radix/Cache.antt =====
-- The cache's operations against its view: `match_prefix` and `insert_prefix`.
use free_token_intel.Prelude.{
  ℕ, ◌+◌, ◌-◌, ◌≤◌, ◌<◌, ◌≡◌, refl, sym, subst, ◌∙◌, inl, inr, false, List, arith, ◌==◌, Bool-cases,
  ==_iff, length, take, length-take, length-drop,
}
use free_token_intel.Align.{align_down, align_down-le}
use free_token_intel.Radix.{
  compare_key, tree_walk, RadixCache, Handle, match_prefix, new_node, insert_walked, insert_prefix,
}
use free_token_intel.Radix.Prefixes.{IsAligned, align_down-IsAligned, align_down-add}
use free_token_intel.Radix.View.{stored, IsTree}
use free_token_intel.Radix.Split.{aligned_room}
use free_token_intel.Radix.Prefixes.{compare_key-le_left}
use free_token_intel.Radix.Closed.{stored_closed}
use free_token_intel.Radix.Walk.{tree_walk-Walks, stored-IsAligned}
use free_token_intel.Radix.Names.{IsNamed, tree_walk-Renames, Renames-IsNamed}
use free_token_intel.Radix.Insert.{merged}
use free_token_intel.Radix.Grow.{IsRest, grown-Adds}
use free_token_intel.Radix.Attach.{set_parent-IsTree, set_parent-IsNamed}

-- A cache whose tree is one: whole-page spans with a slot for each token, and distinct nodes.
pub record IsCache (c : RadixCache) : Type 0 where
  pub pages : 0 < c.page_size
  pub tree : IsTree c.page_size c.root
  pub named : IsNamed c.next_uuid c.root

-- The slots of the longest resident prefix of a prompt: what the cache is, for its users.
abbrev pub resident : RadixCache → List ℕ → List ℕ
resident c input = stored c.page_size c.root input

-- A match changes nothing that the cache holds: it says how long the longest resident prefix of the
-- prompt is, which is whole pages and not longer than the prompt, and whatever is looked up afterwards
-- is found as it was found before, though nodes may have been split.
pub match_prefix-resident :
    (c : RadixCache) (tic : ℕ) (input : List ℕ)
    → IsCache c
    → let m = match_prefix c tic input in
      ((y : List ℕ) → resident m.0 y ≡ resident c y)
      × (m.1 ≡ length (resident c input))
      × IsAligned c.page_size m.1
      × (m.1 ≤ length input)
      × IsCache m.0
unfolding match_prefix
match_prefix-resident c tic input v =
    let w = tree_walk c.page_size tic c.next_uuid c.root input in
    let walks = tree_walk-Walks c.page_size v.pages tic c.next_uuid c.root input v.tree in
    let (whole, short) = stored-IsAligned c.page_size v.pages c.root input v.tree in
    (
      walks.same_view,
      walks.got,
      subst (IsAligned c.page_size) (sym walks.got) whole,
      omega (arith, walks.got, short),
      record {
        pages = v.pages;
        tree = walks.tree;
        named =
            Renames-IsNamed c.next_uuid c.root w
              (tree_walk-Renames c.page_size tic c.next_uuid c.root input) v.named;
      },
    )

-- What an insertion leaves, for its whole-page input.
pub record Inserted (c : RadixCache) (input slots : List ℕ) (d : RadixCache) (prefix_len : ℕ)
    (h : Handle) : Type 0 where
  pub same_pages : d.page_size ≡ c.page_size
  pub merges :
      (y : List ℕ)
      → stored c.page_size d.root y
        ≡ merged
            (resident c y)
            (resident c input)
            slots
            (align_down (compare_key input y) c.page_size)
  pub found : prefix_len ≡ length (resident c input)
  pub covers : h.cached_len ≡ length input
  pub sound : IsCache d

rest-IsAligned :
    (c : RadixCache) (m k : ℕ) {d : ℕ}
    → 0 < c.page_size
    → IsAligned c.page_size m
    → IsAligned c.page_size k
    → m ≤ k
    → d ≡ k - m
    → IsAligned c.page_size d
rest-IsAligned c m k {d} pos am ak h e =
    let f : m + d ≡ k = omega (arith, e) in
    let g : align_down (m + d) c.page_size ≡ m + d = rw f ak in
    omega (arith, g, align_down-add c.page_size m d pos am)

-- An input that is resident whole adds nothing.
fully :
    (c : RadixCache) (input y slots : List ℕ)
    → IsCache c
    → length (resident c input) ≡ length input
    → resident c y
      ≡ merged
          (resident c y)
          (resident c input)
          slots
          (align_down (compare_key input y) c.page_size)
fully c input y slots v all =
    let k = align_down (compare_key input y) c.page_size in
    let closed = stored_closed c.page_size v.pages c.root input y v.tree in
    let le : k ≤ length input =
      omega (arith, align_down-le (compare_key input y) c.page_size, compare_key-le_left input y) in
    ground (arith, closed, le, all)

-- The new node of an insertion holds whole pages.
pub walked-IsRest :
    (c : RadixCache) (tic now : ℕ) (input slots : List ℕ) (v : IsCache c)
    → IsAligned c.page_size (length input)
    → length slots ≡ length input
    → let w = tree_walk c.page_size tic c.next_uuid c.root input in
      (w.prefix_len == length input) ≡ false
      → IsRest c.page_size v.pages (new_node w now input slots) w input slots
walked-IsRest c tic now input slots v whole paired more =
    let w = tree_walk c.page_size tic c.next_uuid c.root input in
    let walks = tree_walk-Walks c.page_size v.pages tic c.next_uuid c.root input v.tree in
    let (part, short) = stored-IsAligned c.page_size v.pages c.root input v.tree in
    let got : IsAligned c.page_size w.prefix_len =
      subst (IsAligned c.page_size) (sym walks.got) part in
    let room =
      aligned_room c.page_size v.pages w.prefix_len (length input) got whole
        (ground (arith, walks.got, short)) in
    record {
      key = refl;
      value = refl;
      span = record {
        page = omega (arith, room, length-drop w.prefix_len input);
        aligned =
            rest-IsAligned c w.prefix_len (length input) v.pages got whole (omega arith)
              (length-drop w.prefix_len input);
        paired =
            omega (arith, paired, length-drop w.prefix_len input, length-drop w.prefix_len slots);
      };
    }

insert_walked-Inserted :
    (c : RadixCache) (tic now : ℕ) (input slots : List ℕ)
    → IsCache c
    → IsAligned c.page_size (length input)
    → length slots ≡ length input
    → let r =
        insert_walked c now input slots (tree_walk c.page_size tic c.next_uuid c.root input) in
      Inserted c input slots r.0 r.1 r.2
insert_walked-Inserted c tic now input slots v whole paired =
    let w = tree_walk c.page_size tic c.next_uuid c.root input in
    let walks = tree_walk-Walks c.page_size v.pages tic c.next_uuid c.root input v.tree in
    let names =
      Renames-IsNamed c.next_uuid c.root w
        (tree_walk-Renames c.page_size tic c.next_uuid c.root input) v.named in
    elim (Bool-cases (w.prefix_len == length input)) [
      | inl all ↦
          let full : w.prefix_len ≡ length input = (==_iff w.prefix_len (length input)).0 all in
          rw all (record {
            same_pages = refl;
            merges =
                λ y. walks.same_view y ∙ fully c input y slots v (ground (arith, full, walks.got));
            found = walks.got;
            covers = refl;
            sound = record { pages = v.pages; tree = walks.tree; named = names };
          })
      | inr more ↦
          let new = new_node w now input slots in
          let rest = walked-IsRest c tic now input slots v whole paired more in
          rw more (record {
            same_pages = refl;
            merges =
                grown-Adds c.page_size v.pages tic c.next_uuid new c.root input slots v.tree v.named
                  rest;
            found = walks.got;
            covers = refl;
            sound = record {
              pages = v.pages;
              tree = set_parent-IsTree c.page_size new rest.span w.reached w.forest walks.tree;
              named = set_parent-IsNamed c.page_size new w.reached w.forest names;
            };
          })
    ]

-- An insertion adds the prompt's whole pages and nothing else: of any sequence, what is resident
-- afterwards is what was resident before or, if this is more, what it has in common with the inserted
-- prompt in whole pages, on the slots that were resident of the prompt before and on the prompt's own
-- behind them. It says how much of the prompt was resident already, and its handle covers the whole
-- pages of the prompt.
pub insert_prefix-Inserted :
    (c : RadixCache) (tic now : ℕ) (input_ids indices : List ℕ)
    → IsCache c
    → length indices ≡ length input_ids
    → let n = align_down (length input_ids) c.page_size in
      let r = insert_prefix c tic now input_ids indices in
      Inserted c (take n input_ids) (take n indices) r.0 r.1 r.2
unfolding insert_prefix
insert_prefix-Inserted c tic now input_ids indices v paired =
    let n = align_down (length input_ids) c.page_size in
    let e : length (take n input_ids) ≡ n =
      omega (arith, length-take n input_ids, align_down-le (length input_ids) c.page_size) in
    insert_walked-Inserted c tic now (take n input_ids) (take n indices) v
      (subst (IsAligned c.page_size) (sym e) (align_down-IsAligned (length input_ids) c.page_size))
      (omega
        (arith, e, length-take n indices, paired, align_down-le (length input_ids) c.page_size))
