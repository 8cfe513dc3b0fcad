-- ===== src/Examples/Naive.antt =====
-- `NaiveKVCache`: what is inserted is not found, and nothing can be evicted.
use free_token_intel.Prelude.{◌≡◌, refl, false, [], ◌∷◌, runtime_error, ok, raise}
use free_token_intel.NaiveCache.{
  NaiveCache, empty_cache, lock_handle, match_prefix, get_matched_indices, insert_prefix, evict,
  reset_cache, size_info,
}

program : Unit {0}
unfolding empty_cache lock_handle match_prefix get_matched_indices insert_prefix evict reset_cache
    size_info
program = tt

abbrev inserted : NaiveCache
inserted = (insert_prefix empty_cache (1 ∷ 2 ∷ []) (5 ∷ 6 ∷ [])).0

naive_runs :
    (match_prefix (lock_handle inserted 0 false) (1 ∷ 2 ∷ []) ≡ (0, 0))
    × (get_matched_indices 0 ≡ [])
    × (evict inserted 0 ≡ ok (inserted, []))
    × (evict inserted 2 ≡ raise runtime_error)
    × (size_info (reset_cache inserted) ≡ (0, 0))
unfolding program
naive_runs = (refl, refl, refl, refl, refl)
