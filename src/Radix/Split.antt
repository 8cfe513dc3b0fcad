-- ===== src/Radix/Split.antt =====
-- A split changes the tree and not its view; and how the view of a node follows those of its parts.
use free_token_intel.Prelude.{
  ℕ, ◌+◌, ◌-◌, ◌≤◌, ◌<◌, min, ◌≡◌, refl, sym, ap, ◌∙◌, inl, inr, List, ◌++◌, append_assoc,
  append-nil, arith, ltb, Bool-cases, length, take, drop, take-append-drop, length-take,
  length-drop,
}
use free_token_intel.Prelude.{take-take, drop-drop, take-add}
use free_token_intel.Align.{align_down, align_down-le}
use free_token_intel.Radix.{Node, Forest, bare, node, compare_key, split_at}
use free_token_intel.Radix.Prefixes.{
  IsAligned, compare_key-drop, compare_key-take, align_down-add, align_down_small,
}
use free_token_intel.Radix.View.{
  stored, IsSpan, Place, place, stored_beside, stored_inside, stored_below, prefix_node,
  suffix_node, prefix-IsSpan, suffix-IsSpan,
}

module _ (page_size : ℕ) (pos : 0 < page_size) where
  -- An aligned length leaves room for a whole page below another one.
  pub aligned_room :
      (m k : ℕ) → IsAligned page_size m → IsAligned page_size k → m < k → m + page_size ≤ k
  aligned_room m k am ak h = elim (Bool-cases (ltb (k - m) page_size)) [
    | inl small ↦
        let e : m + (k - m) ≡ k = omega arith in
        let f : align_down (m + (k - m)) page_size ≡ m + (k - m) = rw e ak in
        absurd (
          omega (
            arith,
            f,
            align_down-add page_size m (k - m) pos am,
            align_down_small page_size (k - m) (ground arith),
          ))
    | inr large ↦ ground arith
  ]

  align_split :
      (m c : ℕ)
      → IsAligned page_size m
      → m ≤ c
      → m + align_down (c - m) page_size ≡ align_down c page_size
  align_split m c a h =
      let e : m + (c - m) ≡ c = omega arith in
      sym (align_down-add page_size m (c - m) pos a) ∙ ap (λ i. align_down i page_size) e

  module _ (m uuid tic : ℕ) (n : Node) (kids sibs : Forest) (span : IsSpan page_size n)
      (first : page_size ≤ m) (part : m < length n.key) (whole : IsAligned page_size m) where
    front : Node
    front = prefix_node m uuid tic n

    back : Node
    back = suffix_node m n

    front-IsSpan : IsSpan page_size front
    unfolding front
    front-IsSpan = prefix-IsSpan page_size pos m n span first part whole uuid tic

    back-IsSpan : IsSpan page_size back
    unfolding back
    back-IsSpan = suffix-IsSpan page_size pos m n span first part whole

    module _ (input : List ℕ) where
      front_common : compare_key front.key input ≡ min m (compare_key n.key input)
      unfolding front
      front_common = compare_key-take m n.key input

      front_length : length front.key ≡ m
      unfolding front
      front_length = omega (arith, length-take m n.key)

      back_common :
          m ≤ compare_key n.key input
          → compare_key back.key (drop m input) ≡ compare_key n.key input - m
      unfolding back
      back_common h = compare_key-drop m n.key input h

      back_length : length back.key ≡ length n.key - m
      unfolding back
      back_length = length-drop m n.key

      -- What the suffix and its children give for the rest of an input that matches the prefix.
      stored-back :
          m ≤ compare_key n.key input
          → take m n.value ++ stored page_size (node back kids bare) (drop m input)
            ≡ stored page_size (node n kids sibs) input
      unfolding back
      stored-back h =
          let c = compare_key n.key input in
          let room = aligned_room m (length n.key) whole span.aligned part in
          elim (place page_size back (drop m input)) [
            | Place.beside out ↦
                let near : c < m + page_size = omega (arith, back_common h) in
                let al : align_down c page_size ≡ m = omega (
                  arith,
                  align_split m c whole h,
                  align_down_small page_size (c - m) (omega arith),
                ) in
                rw
                  (
                    stored_beside page_size pos back back-IsSpan kids bare (drop m input) out,
                    stored_inside page_size pos n span kids sibs input (omega arith) (omega arith),
                    al,
                  )
                  (unfold stored in append-nil (take m n.value))
            | Place.inside some_page short ↦
                rw
                  (
                    stored_inside page_size pos back back-IsSpan kids bare (drop m input) some_page
                        short,
                    stored_inside page_size pos n span kids sibs input (omega arith)
                        (omega (arith, back_common h, back_length)),
                    back_common h,
                  )
                  (sym (
                    take-add m (align_down (c - m) page_size) (align_down c page_size) n.value
                      (align_split m c whole h)))
            | Place.below all ↦
                rw
                  (
                    stored_below page_size pos back back-IsSpan kids bare (drop m input) all,
                    stored_below page_size pos n span kids sibs input
                        (omega (arith, all, back_common h, back_length)),
                    back_length,
                    drop-drop (length n.key - m) m (length n.key) input (omega arith),
                  )
                  (sym (
                      append_assoc (take m n.value) (drop m n.value)
                        (stored page_size kids (drop (length n.key) input)))
                    ∙ ap (λ v. v ++ stored page_size kids (drop (length n.key) input))
                        (take-append-drop m n.value))
          ]

      -- Splitting a span between pages leaves the view as it was.
      pub stored-split_at :
          stored page_size (split_at m uuid tic n kids sibs) input
          ≡ stored page_size (node n kids sibs) input
      unfolding split_at front back
      stored-split_at =
          let c = compare_key n.key input in
          elim (place page_size front input) [
            | Place.beside out ↦
                rw
                  (
                    stored_beside page_size pos front front-IsSpan (node back kids bare) sibs input
                        out,
                    stored_beside page_size pos n span kids sibs input
                        (omega (arith, front_common)),
                  )
                  refl
            | Place.inside some_page short ↦
                let low : c < m = omega (arith, front_common, front_length) in
                let e : compare_key front.key input ≡ c = omega (arith, front_common) in
                rw
                  (
                    stored_inside page_size pos front front-IsSpan (node back kids bare) sibs input
                        some_page short,
                    stored_inside page_size pos n span kids sibs input (omega arith) (omega arith),
                    e,
                  )
                  (take-take (align_down c page_size) m n.value
                    (omega (arith, align_down-le c page_size)))
            | Place.below all ↦
                rw
                  (
                    stored_below page_size pos front front-IsSpan (node back kids bare) sibs input
                        all,
                    front_length,
                  )
                  (stored-back (omega (arith, all, front_common, front_length)))
          ]
