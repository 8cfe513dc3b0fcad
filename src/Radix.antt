-- ===== src/Radix.antt =====
-- python/freetoken/kvcache/radix_cache.py: the radix prefix cache. The children of a node, a dict in
-- insertion order, are a chain of siblings, each with its own children; a parent pointer is the place
-- in the tree. A node object is known by its `uuid`, which a handle holds (`none` is the root). The
-- clock is an argument of the operations that read it.
pub mod Prefixes
pub mod View
pub mod Split
pub mod Walk
pub mod Names
pub mod Insert
pub mod Grow
pub mod Closed
pub mod Totals
pub mod Attach
pub mod Cache
pub mod Locks
pub mod Ledger
pub mod Climb
pub mod Kept
pub mod Locking
pub mod Found
pub mod Shared
pub mod Counting
pub mod Held
pub mod Handed
pub mod Evict
pub mod Leaves
pub mod Remove
pub mod Evicting
pub mod Evicted
pub mod Reach
use free_token_intel.Prelude.{
  ℕ, suc, ◌+◌, Bool, true, false, ◌&&◌, Option, none, some, List, [], ◌∷◌, ◌==◌, if◌then◌else◌,
  length, take, drop,
}
use free_token_intel.Align.{align_down}

pub record Node : Type 0 where
  pub key : List ℕ
  pub value : List ℕ
  pub ref_count : ℕ
  pub timestamp : ℕ
  pub uuid : ℕ

pub data Forest : Type 0 where
  bare : Forest
  node : Node → Forest → Forest → Forest

-- `fast_compare_key`: the length of the common prefix.
unfoldable pub compare_key : List ℕ → List ℕ → ℕ
compare_key [] ys = 0
compare_key (x ∷ xs) [] = 0
compare_key (x ∷ xs) (y ∷ ys) = let rest = compare_key xs ys in if x == y then suc rest else 0

-- Equality of dict keys: `tuple(x[:page_size])`, or `x[0]` on pages of one token.
unfoldable pub same_tokens : List ℕ → List ℕ → Bool
same_tokens [] [] = true
same_tokens [] (y ∷ ys) = false
same_tokens (x ∷ xs) [] = false
same_tokens (x ∷ xs) (y ∷ ys) = (x == y) && same_tokens xs ys

unfoldable pub same_page : ℕ → List ℕ → List ℕ → Bool
same_page page_size xs ys = same_tokens (take page_size xs) (take page_size ys)

-- `split_at`: the new prefix node, with the old node as its only child. The new node's timestamp is
-- set by the caller.
unfoldable pub split_at : ℕ → ℕ → ℕ → Node → Forest → Forest → Forest
split_at pos uuid tic n kids sibs =
    node
      (record {
        key = take pos n.key;
        value = take pos n.value;
        ref_count = n.ref_count;
        timestamp = tic;
        uuid = uuid;
      })
      (node (record n { key = drop pos n.key; value = drop pos n.value }) kids bare) sibs

-- The tree after a walk, how far it got, the node that it ended on, and the next uuid.
pub record Walked : Type 0 where
  pub forest : Forest
  pub prefix_len : ℕ
  pub reached : Option ℕ
  pub next_uuid : ℕ

-- The end of a walk inside the children of the node `here`.
abbrev pub or_here : Option ℕ → ℕ → Option ℕ
or_here none here = some here
or_here (some deeper) here = some deeper

-- `_tree_walk` over the children of one node: the child with the page of the input, if any, is
-- matched; a part of it is split off, the whole of it is descended into.
unfoldable pub tree_walk : ℕ → ℕ → ℕ → Forest → List ℕ → Walked
tree_walk page_size tic uuid bare input = record {
  forest = bare;
  prefix_len = 0;
  reached = none;
  next_uuid = uuid;
}
tree_walk page_size tic uuid (node n kids sibs) input =
    let matched = align_down (compare_key n.key input) page_size in
    let below = tree_walk page_size tic uuid kids (drop matched input) in
    let beside = tree_walk page_size tic uuid sibs input in
    if same_page page_size n.key input
    then if matched == length n.key
      then record {
        forest = node (record n { timestamp = tic }) below.forest sibs;
        prefix_len = matched + below.prefix_len;
        reached = or_here below.reached n.uuid;
        next_uuid = below.next_uuid;
      }
      else record {
        forest = split_at matched uuid tic n kids sibs;
        prefix_len = matched;
        reached = some uuid;
        next_uuid = suc uuid;
      }
    else record beside { forest = node n kids beside.forest }

-- `parent.children[key] = new`: in place of a child with the same page, else behind the others.
unfoldable pub add_child : ℕ → Node → Forest → Forest
add_child page_size new bare = node new bare bare
add_child page_size new (node n kids sibs) =
    if same_page page_size n.key new.key
    then node new bare sibs
    else node n kids (add_child page_size new sibs)

-- The same below the node with the uuid, wherever it stands.
unfoldable pub attach : ℕ → Node → ℕ → Forest → Forest
attach page_size new parent bare = bare
attach page_size new parent (node n kids sibs) =
    if n.uuid == parent
    then node n (add_child page_size new kids) sibs
    else node n (attach page_size new parent kids) (attach page_size new parent sibs)

abbrev pub set_parent : ℕ → Node → Option ℕ → Forest → Forest
set_parent page_size new none f = add_child page_size new f
set_parent page_size new (some parent) f = attach page_size new parent f

pub record Handle : Type 0 where
  pub cached_len : ℕ
  pub node : Option ℕ

pub record RadixCache : Type 0 where
  pub page_size : ℕ
  pub evictable_size : ℕ
  pub protected_size : ℕ
  pub root : Forest
  pub next_uuid : ℕ

-- The root node takes the first uuid.
unfoldable pub empty_cache : ℕ → ℕ → RadixCache
empty_cache page_size uuid = record {
  page_size = page_size;
  evictable_size = 0;
  protected_size = 0;
  root = bare;
  next_uuid = suc uuid;
}

unfoldable pub match_prefix : RadixCache → ℕ → List ℕ → RadixCache × ℕ × Handle
match_prefix c tic input =
    let w = tree_walk c.page_size tic c.next_uuid c.root input in
    (
      record c { root = w.forest; next_uuid = w.next_uuid },
      w.prefix_len,
      record { cached_len = w.prefix_len; node = w.reached },
    )

-- The new node for what a walk left of the input. `now` is the clock when it is made.
abbrev pub new_node : Walked → ℕ → List ℕ → List ℕ → Node
new_node w now input slots = record {
  key = drop w.prefix_len input;
  value = drop w.prefix_len slots;
  ref_count = 0;
  timestamp = now;
  uuid = w.next_uuid;
}

abbrev pub insert_walked : RadixCache → ℕ → List ℕ → List ℕ → Walked → RadixCache × ℕ × Handle
insert_walked c now input slots w =
    if w.prefix_len == length input
    then (
      record c { root = w.forest; next_uuid = w.next_uuid },
      w.prefix_len,
      record { cached_len = length input; node = w.reached },
    )
    else (
      record c {
        root = set_parent c.page_size (new_node w now input slots) w.reached w.forest;
        next_uuid = suc w.next_uuid;
        evictable_size = c.evictable_size + length (drop w.prefix_len input);
      },
      w.prefix_len,
      record { cached_len = length input; node = some w.next_uuid },
    )

unfoldable pub insert_prefix : RadixCache → ℕ → ℕ → List ℕ → List ℕ → RadixCache × ℕ × Handle
insert_prefix c tic now input_ids indices =
    let insert_len = align_down (length input_ids) c.page_size in
    let input = take insert_len input_ids in
    insert_walked c now input (take insert_len indices)
      (tree_walk c.page_size tic c.next_uuid c.root input)
