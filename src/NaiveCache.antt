-- ===== src/NaiveCache.antt =====
-- python/freetoken/kvcache/naive_cache.py: the prefix cache that shares nothing.
use free_token_intel.Prelude.{ℕ, Bool, List, [], ◌==◌, runtime_error, Result, ok, ◌>>◌, guard}

pub record NaiveCache : Type 0 where
  pub evictable_size : ℕ
  pub protected_size : ℕ

-- `cached_len` of a handle; its indices are always empty.
unfoldable pub get_matched_indices : ℕ → List ℕ
get_matched_indices cached_len = []

unfoldable pub empty_cache : NaiveCache
empty_cache = record { evictable_size = 0; protected_size = 0 }

unfoldable pub lock_handle : NaiveCache → ℕ → Bool → NaiveCache
lock_handle c handle unlock = c

-- The length that is cached, and the handle.
unfoldable pub match_prefix : NaiveCache → List ℕ → ℕ × ℕ
match_prefix c input_ids = (0, 0)

unfoldable pub insert_prefix : NaiveCache → List ℕ → List ℕ → NaiveCache × ℕ × ℕ
insert_prefix c input_ids indices = (c, 0, 0)

unfoldable pub evict : NaiveCache → ℕ → Result (NaiveCache × List ℕ)
evict c size = do guard (size == 0) runtime_error; ok (c, [])

unfoldable pub reset_cache : NaiveCache → NaiveCache
reset_cache c = record { evictable_size = 0; protected_size = 0 }

unfoldable pub size_info : NaiveCache → ℕ × ℕ
size_info c = (0, 0)
