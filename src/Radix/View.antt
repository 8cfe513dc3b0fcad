-- ===== src/Radix/View.antt =====
-- The abstract view of a radix tree: for a token sequence, the slots of its longest resident prefix.
use free_token_intel.Prelude.{
  ℕ, ◌+◌, ◌-◌, ◌≤◌, ◌<◌, ◌≡◌, ap, ◌∙◌, inl, inr, true, List, [], ◌++◌, arith, ltb, leb, ◌==◌,
  if◌then◌else◌, Bool-cases, length, take, drop, length-take, length-drop,
}
use free_token_intel.Align.{align_down, align_down-le}
use free_token_intel.Radix.{Node, Forest, bare, node, compare_key, same_page}
use free_token_intel.Radix.Prefixes.{
  IsAligned, compare_key-le_left, same_page-compare_key, align_down-add, align_down_small,
}

unfoldable pub stored : ℕ → Forest → List ℕ → List ℕ
stored page_size bare input = []
stored page_size (node n kids sibs) input =
    let matched = align_down (compare_key n.key input) page_size in
    let below = stored page_size kids (drop matched input) in
    let beside = stored page_size sibs input in
    if same_page page_size n.key input
    then if matched == length n.key then n.value ++ below else take matched n.value
    else beside

-- Every span is whole pages, at least one, with a slot for each token.
pub record IsSpan (page_size : ℕ) (n : Node) : Type 0 where
  pub page : page_size ≤ length n.key
  pub aligned : IsAligned page_size (length n.key)
  pub paired : length n.value ≡ length n.key

abbrev pub IsTree : ℕ → Forest → Type 0
IsTree page_size bare = Unit
IsTree page_size (node n kids sibs) =
    IsSpan page_size n × IsTree page_size kids × IsTree page_size sibs

-- Where an input leaves a span: before its first page, inside it, or past its end.
pub data Place (page_size : ℕ) (n : Node) (input : List ℕ) : Type 0 where
  beside : compare_key n.key input < page_size → Place page_size n input
  inside :
      page_size ≤ compare_key n.key input
      → compare_key n.key input < length n.key
      → Place page_size n input
  below : compare_key n.key input ≡ length n.key → Place page_size n input

pub place : (page_size : ℕ) (n : Node) (input : List ℕ) → Place page_size n input
place page_size n input = elim (Bool-cases (ltb (compare_key n.key input) page_size)) [
  | inl out ↦ Place.beside (ground arith)
  | inr in_page ↦ elim (Bool-cases (ltb (compare_key n.key input) (length n.key))) [
    | inl part ↦ Place.inside (ground arith) (ground arith)
    | inr all ↦ Place.below (ground (arith, compare_key-le_left n.key input))
  ]
]

module _ (page_size : ℕ) (pos : 0 < page_size) (n : Node) (span : IsSpan page_size n) where
  pub page_test :
      (input : List ℕ) → same_page page_size n.key input ≡ leb page_size (compare_key n.key input)
  page_test input = same_page-compare_key page_size n.key input span.page

  -- A part of a span that matches, rounded to pages, is not the whole of it.
  pub part_lt :
      (input : List ℕ)
      → compare_key n.key input < length n.key
      → align_down (compare_key n.key input) page_size < length n.key
  part_lt input part = omega (arith, align_down-le (compare_key n.key input) page_size)

  module _ (kids sibs : Forest) (input : List ℕ) where
    pub stored_beside :
        compare_key n.key input < page_size
        → stored page_size (node n kids sibs) input ≡ stored page_size sibs input
    unfolding stored
    stored_beside out = ground (arith, page_test input)

    pub stored_inside :
        page_size ≤ compare_key n.key input
        → compare_key n.key input < length n.key
        → stored page_size (node n kids sibs) input
          ≡ take (align_down (compare_key n.key input) page_size) n.value
    unfolding stored
    stored_inside first part = ground (arith, page_test input, part_lt input part)

    pub stored_below :
        compare_key n.key input ≡ length n.key
        → stored page_size (node n kids sibs) input
          ≡ n.value ++ stored page_size kids (drop (length n.key) input)
    unfolding stored
    stored_below all =
        let whole : align_down (compare_key n.key input) page_size ≡ length n.key =
          ap (λ c. align_down c page_size) all ∙ span.aligned in
        let test : same_page page_size n.key input ≡ true =
          ground (arith, page_test input, span.page) in
        rw (test, whole) (ground arith)

-- The two spans that a split makes.
abbrev pub prefix_node : ℕ → ℕ → ℕ → Node → Node
prefix_node m uuid tic n = record {
  key = take m n.key;
  value = take m n.value;
  ref_count = n.ref_count;
  timestamp = tic;
  uuid = uuid;
}

abbrev pub suffix_node : ℕ → Node → Node
suffix_node m n = record n { key = drop m n.key; value = drop m n.value }

module _ (page_size : ℕ) (pos : 0 < page_size) (m : ℕ) (n : Node) (span : IsSpan page_size n)
    (first : page_size ≤ m) (part : m < length n.key) (whole : IsAligned page_size m) where
  pub prefix-IsSpan : (uuid tic : ℕ) → IsSpan page_size (prefix_node m uuid tic n)
  prefix-IsSpan uuid tic =
      let e : length (take m n.key) ≡ m = omega (arith, length-take m n.key) in
      record {
        page = omega (arith, e);
        aligned = rw e whole;
        paired = omega (arith, e, length-take m n.value, span.paired);
      }

  pub rest-IsAligned : IsAligned page_size (length n.key - m)
  rest-IsAligned =
      let d = length n.key - m in
      let e : m + d ≡ length n.key = omega arith in
      let f : align_down (m + d) page_size ≡ m + d = rw e span.aligned in
      omega (arith, f, align_down-add page_size m d pos whole)

  pub suffix-IsSpan : IsSpan page_size (suffix_node m n)
  suffix-IsSpan =
      let e : length (drop m n.key) ≡ length n.key - m = length-drop m n.key in
      record {
        page = elim (Bool-cases (ltb (length n.key - m) page_size)) [
          | inl small ↦ absurd (
              omega (
                arith,
                rest-IsAligned,
                align_down_small page_size (length n.key - m) (ground arith),
              ))
          | inr large ↦ ground (arith, e)
        ];
        aligned = rw e rest-IsAligned;
        paired = omega (arith, e, length-drop m n.value, span.paired);
      }
