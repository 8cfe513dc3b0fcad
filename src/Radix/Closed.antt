-- ===== src/Radix/Closed.antt =====
-- Residency is closed under prefixes.
use free_token_intel.Prelude.{
  ℕ, ◌+◌, ◌≤◌, ◌<◌, min, ◌≡◌, ap, ◌∙◌, inl, inr, List, arith, ltb, Bool-cases, length, take, drop,
  length-append, length-take,
}
use free_token_intel.Align.{align_down, align_down-le}
use free_token_intel.Radix.{Forest, bare, node, compare_key}
use free_token_intel.Radix.Prefixes.{
  compare_key_comm, compare_key_ultra, compare_key_both, align_down-add, align_down_mono,
  align_down_small,
}
use free_token_intel.Radix.View.{
  stored, IsTree, Place, place, stored_beside, stored_inside, stored_below,
}

module _ (page_size : ℕ) (pos : 0 < page_size) where
  -- As much of the resident prefix of one input as it has in common with another is resident of the
  -- other, in whole pages.
  pub stored_closed :
      (f : Forest) (x y : List ℕ)
      → IsTree page_size f
      → min (length (stored page_size f x)) (align_down (compare_key x y) page_size)
        ≤ length (stored page_size f y)
  unfolding stored
  stored_closed bare x y t = omega arith
  stored_closed (node n kids sibs) x y t =
      let f = node n kids sibs in
      let cx = compare_key n.key x in
      let cy = compare_key n.key y in
      let inside_length : (z : List ℕ)
          → length (take (align_down (compare_key n.key z) page_size) n.value)
            ≡ min (align_down (compare_key n.key z) page_size) (length n.key) =
        λ z.
          omega
            (arith, length-take (align_down (compare_key n.key z) page_size) n.value, t.0.paired) in
      elim (place page_size n y) [
        | Place.beside out ↦ elim (place page_size n x) [
          | Place.beside far ↦
              rw
                (
                  stored_beside page_size pos n t.0 kids sibs x far,
                  stored_beside page_size pos n t.0 kids sibs y out,
                )
                (stored_closed sibs x y t.2)
          | Place.inside first part ↦
              let e : compare_key x y ≡ cy = compare_key_ultra n.key x y (omega arith) in
              omega (arith, align_down_small page_size (compare_key x y) (omega (arith, e)))
          | Place.below all ↦
              let e : compare_key x y ≡ cy =
                compare_key_ultra n.key x y (omega (arith, t.0.page)) in
              omega (arith, align_down_small page_size (compare_key x y) (omega (arith, e)))
        ]
        | Place.inside first part ↦
            let sy =
              ap length (stored_inside page_size pos n t.0 kids sibs y first part)
              ∙ inside_length y in
            let ly = align_down-le cy page_size in
            elim (place page_size n x) [
              | Place.beside far ↦
                  let e : compare_key y x ≡ cx = compare_key_ultra n.key y x (omega arith) in
                  omega (
                    arith,
                    align_down_small page_size (compare_key x y)
                        (omega (arith, e, compare_key_comm x y)),
                  )
              | Place.inside one short ↦
                  let sx =
                    ap length (stored_inside page_size pos n t.0 kids sibs x one short)
                    ∙ inside_length x in
                  elim (Bool-cases (ltb cy cx)) [
                    | inl less ↦
                        let e : compare_key x y ≡ cy = compare_key_ultra n.key x y (ground arith) in
                        let a : align_down (compare_key x y) page_size ≡ align_down cy page_size =
                          ap (λ i. align_down i page_size) e in
                        omega (arith, a, sy, ly)
                    | inr more ↦
                        omega (arith, sx, sy, ly, align_down_mono page_size cx cy (ground arith))
                  ]
              | Place.below all ↦
                  let e : compare_key x y ≡ cy = compare_key_ultra n.key x y (omega (arith, all)) in
                  let a : align_down (compare_key x y) page_size ≡ align_down cy page_size =
                    ap (λ i. align_down i page_size) e in
                  omega (arith, a, sy, ly)
            ]
        | Place.below all ↦
            let y' = drop (length n.key) y in
            let sy =
              ap length (stored_below page_size pos n t.0 kids sibs y all)
              ∙ length-append n.value (stored page_size kids y') in
            elim (place page_size n x) [
              | Place.beside far ↦
                  let e : compare_key y x ≡ cx =
                    compare_key_ultra n.key y x (omega (arith, all, t.0.page)) in
                  omega (
                    arith,
                    align_down_small page_size (compare_key x y)
                        (omega (arith, e, compare_key_comm x y)),
                  )
              | Place.inside one short ↦
                  let sx =
                    ap length (stored_inside page_size pos n t.0 kids sibs x one short)
                    ∙ inside_length x in
                  omega (arith, sx, sy, t.0.paired, align_down-le cx page_size)
              | Place.below whole ↦
                  let x' = drop (length n.key) x in
                  let sx =
                    ap length (stored_below page_size pos n t.0 kids sibs x whole)
                    ∙ length-append n.value (stored page_size kids x') in
                  let far : compare_key x y ≡ length n.key + compare_key x' y' =
                    compare_key_both (length n.key) n.key x y (omega (arith, whole))
                      (omega (arith, all)) in
                  let a : align_down (compare_key x y) page_size
                      ≡ length n.key + align_down (compare_key x' y') page_size =
                    ap (λ i. align_down i page_size) far
                    ∙ align_down-add page_size (length n.key) (compare_key x' y') pos t.0.aligned in
                  omega (arith, a, sx, sy, t.0.paired, stored_closed kids x' y' t.1)
            ]
      ]
