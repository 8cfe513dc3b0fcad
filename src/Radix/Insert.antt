-- ===== src/Radix/Insert.antt =====
-- What an insertion adds to the view of the tree.
use free_token_intel.Prelude.{
  ℕ, ◌+◌, ◌≤◌, ◌<◌, ◌≡◌, refl, sym, ap, ◌∙◌, inl, inr, true, false, List, ◌++◌, append_assoc,
  append-nil, arith, leb, if◌then◌else◌, Bool-cases, length, take, drop, length-append, length-take,
  take_of_length-le,
}
use free_token_intel.Prelude.{drop-drop, take-append}
use free_token_intel.Align.{align_down, align_down-le}
use free_token_intel.Radix.{Node, Forest, bare, node, compare_key}
use free_token_intel.Radix.Prefixes.{
  compare_key_comm, compare_key_ultra, compare_key_both, align_down-add, align_down_small,
  align_down_page,
}
use free_token_intel.Radix.View.{
  stored, IsSpan, Place, place, stored_beside, stored_inside, stored_below,
}

-- An input that shares `common` whole-page tokens with the inserted one: what was resident of it, or
-- the common part of what is now resident of the inserted one.
abbrev pub merged : List ℕ → List ℕ → List ℕ → ℕ → List ℕ
merged before found slots common =
    if leb common (length before) then before else take common (found ++ drop (length found) slots)

module _ (page_size : ℕ) (pos : 0 < page_size) where
  abbrev pub common_pages : List ℕ → List ℕ → ℕ
  common_pages x y = align_down (compare_key x y) page_size

  -- The view of `f'` is that of `f` with the tokens `x` on the slots `slots` added.
  abbrev pub Adds : Forest → Forest → List ℕ → List ℕ → Type 0
  Adds f f' x slots =
      (y : List ℕ)
      → stored page_size f' y
        ≡ merged (stored page_size f y) (stored page_size f x) slots (common_pages x y)

  pub bare-Adds :
      (new : Node) → IsSpan page_size new → Adds bare (node new bare bare) new.key new.value
  unfolding stored
  bare-Adds new span y =
      let c = compare_key new.key y in
      elim (place page_size new y) [
        | Place.beside out ↦
            rw
              (
                stored_beside page_size pos new span bare bare y out,
                align_down_small page_size c out,
              )
              (unfold stored in refl)
        | Place.inside first part ↦
            let low = align_down_page page_size c first in
            rw (stored_inside page_size pos new span bare bare y first part) (ground (arith, low))
        | Place.below all ↦
            let e : align_down c page_size ≡ length new.key =
              ap (λ i. align_down i page_size) all ∙ span.aligned in
            let whole : take (length new.key) new.value ≡ new.value =
              take_of_length-le (length new.key) new.value (omega (arith, span.paired)) in
            rw (stored_below page_size pos new span bare bare y all, e)
              (append-nil new.value ∙ ground (arith, whole, span.page))
      ]

  module _ (n : Node) (span : IsSpan page_size n) where
    -- An input that leaves the span before another one shares no page with it.
    apart :
        (x y : List ℕ)
        → compare_key n.key x < page_size
        → page_size ≤ compare_key n.key y
        → common_pages x y ≡ 0
    apart x y h k =
        let e : compare_key y x ≡ compare_key n.key x = compare_key_ultra n.key y x (omega arith) in
        align_down_small page_size (compare_key x y) (omega (arith, e, compare_key_comm x y))

    pub beside-Adds :
        (kids sibs sibs' : Forest) (x slots : List ℕ)
        → compare_key n.key x < page_size
        → Adds sibs sibs' x slots
        → Adds (node n kids sibs) (node n kids sibs') x slots
    beside-Adds kids sibs sibs' x slots out a y =
        let ex = stored_beside page_size pos n span kids sibs x out in
        elim (place page_size n y) [
          | Place.beside far ↦
              rw
                (
                  ex,
                  stored_beside page_size pos n span kids sibs y far,
                  stored_beside page_size pos n span kids sibs' y far,
                )
                (a y)
          | Place.inside first part ↦
              rw
                (
                  apart x y out first,
                  stored_inside page_size pos n span kids sibs y first part,
                  stored_inside page_size pos n span kids sibs' y first part,
                )
                (ground arith)
          | Place.below all ↦
              rw
                (
                  apart x y out (omega (arith, all, span.page)),
                  stored_below page_size pos n span kids sibs y all,
                  stored_below page_size pos n span kids sibs' y all,
                )
                (ground arith)
        ]

    -- Prepending a span's slots to a merge.
    merged-append :
        (v before found slots : List ℕ) (common k : ℕ)
        → k ≡ length v + common
        → v ++ merged before found (drop (length v) slots) common
          ≡ merged (v ++ before) (v ++ found) slots k
    merged-append v before found slots common k e =
        let lb = length-append v before in
        let lf = length-append v found in
        let dd = drop-drop (length found) (length v) (length (v ++ found)) slots (sym lf) in
        elim (Bool-cases (leb common (length before))) [
          | inl held ↦
              let test : leb k (length (v ++ before)) ≡ true = ground (arith, lb) in
              rw (held, test) refl
          | inr more ↦
              let test : leb k (length (v ++ before)) ≡ false = ground (arith, lb) in
              rw (more, test, dd)
                (sym (take-append v (found ++ drop (length (v ++ found)) slots) common k e)
                  ∙ ap (take k) (sym (append_assoc v found (drop (length (v ++ found)) slots))))
        ]

    pub below-Adds :
        (kids kids' sibs : Forest) (x slots : List ℕ)
        → compare_key n.key x ≡ length n.key
        → Adds kids kids' (drop (length n.key) x) (drop (length n.key) slots)
        → Adds (node n kids sibs) (node n kids' sibs) x slots
    below-Adds kids kids' sibs x slots all a y =
        let x' = drop (length n.key) x in
        let c = compare_key n.key y in
        elim (place page_size n y) [
          | Place.beside out ↦
              let e : compare_key x y ≡ c =
                compare_key_ultra n.key x y (omega (arith, all, span.page)) in
              rw
                (
                  stored_beside page_size pos n span kids sibs y out,
                  stored_beside page_size pos n span kids' sibs y out,
                  e,
                  align_down_small page_size c out,
                )
                (ground arith)
          | Place.inside first part ↦
              let e : compare_key x y ≡ c = compare_key_ultra n.key x y (omega (arith, all)) in
              let long : length (take (align_down c page_size) n.value) ≡ align_down c page_size =
                omega (
                  arith,
                  length-take (align_down c page_size) n.value,
                  span.paired,
                  align_down-le c page_size,
                ) in
              rw
                (
                  stored_inside page_size pos n span kids sibs y first part,
                  stored_inside page_size pos n span kids' sibs y first part,
                  e,
                )
                (ground (arith, long))
          | Place.below whole ↦
              let y' = drop (length n.key) y in
              let far : compare_key x y ≡ length n.key + compare_key x' y' =
                compare_key_both (length n.key) n.key x y (omega (arith, all))
                  (omega (arith, whole)) in
              let k : common_pages x y ≡ length n.value + common_pages x' y' =
                ap (λ i. align_down i page_size) far
                ∙ omega (
                  arith,
                  align_down-add page_size (length n.key) (compare_key x' y') pos span.aligned,
                  span.paired,
                ) in
              let step =
                merged-append n.value (stored page_size kids y') (stored page_size kids x') slots
                  (common_pages x' y') (common_pages x y) k in
              rw
                (
                  stored_below page_size pos n span kids sibs y whole,
                  stored_below page_size pos n span kids' sibs y whole,
                  stored_below page_size pos n span kids sibs x all,
                  a y',
                )
                (ap
                    (λ i.
                      n.value
                      ++ merged (stored page_size kids y') (stored page_size kids x') (drop i slots)
                          (common_pages x' y'))
                    (sym span.paired)
                  ∙ step)
        ]
