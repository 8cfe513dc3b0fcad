-- ===== src/CacheBudget/Pinned.antt =====
-- `check_pinned_kv_fit` and `resolve_served_context_len` of python/freetoken/engine/cache_budget.py.
use free_token_intel.Prelude.{
  ℕ, ◌+◌, ◌-◌, ◌*◌, ◌/◌, ◌≤◌, ◌<◌, min, ◌≡◌, refl, ◌↔◌, inl, inr, Bool, true, false, none, some,
  arith, leb, Bool-cases, ok,
}
use free_token_intel.CacheBudget.{
  Shapes, kv_token_bytes, pinned_moe_bytes, cap_pages, check_pinned_kv_fit,
  resolve_served_context_len,
}
use free_token_intel.CacheBudget.Plan.{div_le, lt_div, kv_token_bytes-positive}

-- The pages that the caller may allocate, besides its reserved ones.
pub record Capped (budget moe_bytes per_token requested reserved pages : ℕ) (capped : Bool)
    : Type 0 where
  pub some_page : 0 < pages
  pub no_more : pages ≤ requested
  pub fit : moe_bytes + (pages + reserved) * per_token ≤ budget
  pub told : capped ≡ false → pages ≡ requested
  pub most :
      capped ≡ true
      → (pages < requested) × (budget < moe_bytes + (pages + 1 + reserved) * per_token)

div_room : (n m per : ℕ) → 0 < n / per → m ≤ n / per → m * per ≤ n
div_room n m per h k = grind (arith, div_le n per)

div_over : (n m per : ℕ) → 0 < per → n / per < m → n < m * per
div_over n m per h k = grind (arith, lt_div n per)

cap_pages-Capped :
    (budget moe_bytes per_token requested reserved : ℕ) {pages : ℕ} {capped : Bool}
    → 0 < per_token
    → 0 < requested
    → cap_pages budget moe_bytes per_token requested reserved ≡ ok (pages, capped)
    → Capped budget moe_bytes per_token requested reserved pages capped
unfolding cap_pages
cap_pages-Capped budget moe_bytes per_token requested reserved {pages} {capped} pos asked e =
    let n = budget - moe_bytes in
    let whole = n / per_token in
    elim (Bool-cases (leb whole reserved)) [
      | inl none_fit ↦ absurd (ground arith)
      | inr fits ↦
          let left : moe_bytes < budget =
            omega (arith, div_room n 1 per_token (ground arith) (ground arith)) in
          elim (Bool-cases (leb requested (whole - reserved))) [
            | inl all ↦
                let ep : pages ≡ requested = ground arith in
                let ec : capped ≡ false = ground arith in
                rw (ep, ec)
                  (record {
                    some_page = asked;
                    no_more = omega arith;
                    fit = omega (
                      arith,
                      div_room n (requested + reserved) per_token (ground arith) (ground arith),
                    );
                    told = λ x. refl;
                    most = λ x. absurd (ground arith);
                  })
            | inr short ↦
                let ep : pages ≡ whole - reserved = ground arith in
                let ec : capped ≡ true = ground arith in
                let top : pages + reserved ≡ whole = ground arith in
                rw ec (record {
                  some_page = ground arith;
                  no_more = ground arith;
                  fit =
                      omega (
                        arith,
                        div_room n (pages + reserved) per_token (ground arith) (omega arith),
                      );
                  told = λ x. absurd (ground arith);
                  most = λ x. (
                    ground arith,
                    omega (arith, div_over n (pages + 1 + reserved) per_token pos (omega arith)),
                  );
                })
          ]
    ]

-- With a device to measure, the pages that are returned, together with the caller's reserved ones and
-- the pinned expert cache, fit the addressable budget; they are at least one, never more than asked
-- for, and as many as asked for unless a cap is reported, in which case one page more would not fit.
pub check_pinned_kv_fit-Capped :
    (Ratio : Type 0) (scale : ℕ → Ratio → ℕ) (in_unit : Ratio → Bool) (s : Shapes) (total : ℕ)
    (ratio : Ratio) (moe_cache_size requested reserved : ℕ) {moe_bytes per_token pages : ℕ}
    {capped : Bool}
    → pinned_moe_bytes s moe_cache_size ≡ ok moe_bytes
    → kv_token_bytes s ≡ ok per_token
    → check_pinned_kv_fit Ratio scale in_unit s (some total) ratio moe_cache_size requested reserved
      ≡ ok (pages, capped)
    → Capped (scale total ratio) moe_bytes per_token requested reserved pages capped
unfolding check_pinned_kv_fit
check_pinned_kv_fit-Capped Ratio scale in_unit s total ratio moe_cache_size requested reserved
      {moe_bytes} {per_token} {pages} {capped} em et e =
    cap_pages-Capped (scale total ratio) moe_bytes per_token requested reserved {pages = pages}
      {capped = capped} (kv_token_bytes-positive s et) (ground (arith, em, et))
      (ground (arith, em, et))

-- The served context is the checkpoint's, or the planned pages if these are fewer, and then the cap
-- is reported; without a plan the checkpoint's context is served.
resolve_served_context_len_lem :
    (max_seq_len : ℕ)
    → (resolve_served_context_len max_seq_len none ≡ (max_seq_len, false))
      × ((pages : ℕ)
          → ((resolve_served_context_len max_seq_len (some pages)).0 ≡ min max_seq_len pages)
            × (((resolve_served_context_len max_seq_len (some pages)).1 ≡ true)
                ↔ (pages < max_seq_len)))
unfolding resolve_served_context_len
resolve_served_context_len_lem max_seq_len = (refl, λ pages. (ground arith, ground arith))
