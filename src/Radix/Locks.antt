-- ===== src/Radix/Locks.antt =====
-- python/freetoken/kvcache/radix_cache.py: the slots of a handle, and `lock_handle` over the path from
-- the handle's node to the root, with the two sizes that it keeps.
use free_token_intel.Prelude.{
  ℕ, suc, ◌+◌, ◌-◌, Bool, true, false, Option, none, some, List, [], ◌++◌, ltb, ◌==◌, if◌then◌else◌,
  assertion_error, Result, ok, raise, ◌>>◌, guard, length,
}
use free_token_intel.Radix.{Node, Forest, bare, node, Handle, RadixCache}

abbrev pub under : List ℕ → Option (List ℕ) → Option (List ℕ) → Option (List ℕ)
under value none beside = beside
under value (some below) beside = some (value ++ below)

-- The values on the path from the root to a node, outermost first; none for a node that is not there.
unfoldable pub path_value : ℕ → Forest → Option (List ℕ)
path_value p bare = none
path_value p (node n kids sibs) =
    let below = path_value p kids in
    let beside = path_value p sibs in
    if n.uuid == p then some n.value else under n.value below beside

unfoldable pub get_matched_indices : RadixCache → Handle → Option (List ℕ)
get_matched_indices c h = elim h.node [ none ↦ some [] | some p ↦ path_value p c.root ]

pub record SizeInfo : Type 0 where
  pub evictable_size : ℕ
  pub protected_size : ℕ

unfoldable pub total_size : SizeInfo → ℕ
total_size s = s.evictable_size + s.protected_size

unfoldable pub size_info : RadixCache → SizeInfo
size_info c = record { evictable_size = c.evictable_size; protected_size = c.protected_size }

-- One turn of the loops of `lock_handle`; the flag is `unlock`.
unfoldable pub count_lock : Bool → Node → SizeInfo → Result (Node × SizeInfo)
count_lock true n s =
    let freed : SizeInfo = record {
      evictable_size = s.evictable_size + length n.key;
      protected_size = s.protected_size - length n.key;
    } in
    do
      guard (ltb 0 n.ref_count) assertion_error
      ok (record n { ref_count = n.ref_count - 1 }, if n.ref_count - 1 == 0 then freed else s)
count_lock false n s =
    let held : SizeInfo = record {
      evictable_size = s.evictable_size - length n.key;
      protected_size = s.protected_size + length n.key;
    } in
    ok (record n { ref_count = suc n.ref_count }, if n.ref_count == 0 then held else s)

-- The loop from a node up to the root: `absent` when the tree has no such node, `failed` for an
-- AssertionError.
pub data Climb : Type 0 where
  absent : Climb
  failed : Climb
  climbed : Forest → SizeInfo → Climb

abbrev pub climb_node : Bool → Node → Forest → Forest → SizeInfo → Climb
climb_node unlock n kids sibs s = elim (count_lock unlock n s) [
  | raise e ↦ Climb.failed
  | ok (n', s') ↦ Climb.climbed (node n' kids sibs) s'
]

unfoldable pub lock_path : Bool → ℕ → Forest → SizeInfo → Climb
lock_path unlock p bare s = Climb.absent
lock_path unlock p (node n kids sibs) s =
    let below = lock_path unlock p kids s in
    let beside = lock_path unlock p sibs s in
    if n.uuid == p then climb_node unlock n kids sibs s else elim below [
      | Climb.failed ↦ Climb.failed
      | Climb.climbed kids' s' ↦ climb_node unlock n kids' sibs s'
      | Climb.absent ↦ elim beside [
        | Climb.absent ↦ Climb.absent
        | Climb.failed ↦ Climb.failed
        | Climb.climbed sibs' s' ↦ Climb.climbed (node n kids sibs') s'
      ]
    ]

abbrev pub with_root : RadixCache → Forest → SizeInfo → RadixCache
with_root c f s = record c {
  root = f;
  evictable_size = s.evictable_size;
  protected_size = s.protected_size;
}

abbrev pub after_climb : RadixCache → Climb → Option (Result RadixCache)
after_climb c Climb.absent = none
after_climb c Climb.failed = some (raise assertion_error)
after_climb c (Climb.climbed f s) = some (ok (with_root c f s))

-- The root of a handle without a node is not counted. None for a handle whose node has left the tree.
unfoldable pub lock_handle : RadixCache → Handle → Bool → Option (Result RadixCache)
lock_handle c h unlock = elim h.node [
  | none ↦ some (ok c)
  | some p ↦ after_climb c (lock_path unlock p c.root (size_info c))
]
