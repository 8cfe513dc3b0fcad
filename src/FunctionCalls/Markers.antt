-- ===== src/FunctionCalls/Markers.antt =====
-- Where a marker is found, and what of it is held back at the end of a buffer.
use free_token_intel.Prelude.{
  ℕ, zero, suc, ◌+◌, ◌-◌, ◌≤◌, ◌<◌, min, ◌≡◌, refl, sym, ap, ◌∙◌, inl, inr, Bool, true, false, ◌&&◌,
  Option, none, some, [], ◌∷◌, ◌++◌, append-nil, arith, ◌==◌, Bool-cases, Option-cases, ==_iff,
  length, take, drop, length-append, length-take,
}
use free_token_intel.Reasoning.{
  Text, starts_with, ends_with, find, after_one, partial_upto, trailing_partial,
}

-- A text that begins in two ways: the first part ends inside the other, or reaches past it.
pub data Split (xs ys us vs : Text) : Type 0 where
  inside : (a : ℕ) (rest : Text) → us ≡ xs ++ a ∷ rest → ys ≡ a ∷ rest ++ vs → Split xs ys us vs
  past : (w : Text) → xs ≡ us ++ w → w ++ ys ≡ vs → Split xs ys us vs

pub append-Split : (xs ys us vs : Text) → xs ++ ys ≡ us ++ vs → Split xs ys us vs
append-Split xs ys [] vs h = Split.past xs refl h
append-Split [] ys (u ∷ us) vs h = Split.inside u us refl h
append-Split (x ∷ xs) ys (u ∷ us) vs h =
    let heads : x ≡ u = ground (arith, h) in
    elim (append-Split xs ys us vs (ground (arith, h))) [
      | Split.inside a rest e k ↦ Split.inside a rest (rw (heads, e) refl) k
      | Split.past w e k ↦ Split.past w (rw (heads, e) refl) k
    ]

pub drop-append : (xs ys : Text) → drop (length xs) (xs ++ ys) ≡ ys
drop-append [] ys = refl
drop-append (x ∷ xs) ys = drop-append xs ys

pub take_append : (xs ys : Text) → take (length xs) (xs ++ ys) ≡ xs
take_append [] ys = refl
take_append (x ∷ xs) ys = ap (◌∷◌ x) (take_append xs ys)

starts_with-le : (text tag : Text) → starts_with text tag ≡ true → length tag ≤ length text
unfolding starts_with
starts_with-le text [] h = omega arith
starts_with-le [] (y ∷ ys) h = absurd (ground arith)
starts_with-le (x ∷ xs) (y ∷ ys) h = omega (arith, starts_with-le xs ys (ground (arith, h)))

starts_with-append :
    (text tag more : Text)
    → length tag ≤ length text
    → starts_with (text ++ more) tag ≡ starts_with text tag
unfolding starts_with
starts_with-append text [] more h = refl
starts_with-append [] (y ∷ ys) more h = absurd (omega (arith, h))
starts_with-append (x ∷ xs) (y ∷ ys) more h =
    ap (λ b. (x == y) && b) (starts_with-append xs ys more (omega (arith, h)))

starts_with_self : (tag more : Text) → starts_with (tag ++ more) tag ≡ true
unfolding starts_with
starts_with_self [] more = refl
starts_with_self (y ∷ ys) more = ground (arith, starts_with_self ys more)

pub find-le : (text tag : Text) (i : ℕ) → find text tag ≡ some i → i + length tag ≤ length text
unfolding find
find-le [] tag i h = elim (Bool-cases (starts_with [] tag)) [
  | inl here ↦ ground (arith, h, here, starts_with-le [] tag here)
  | inr gone ↦ absurd (ground (arith, h, gone))
]
find-le (x ∷ xs) tag i h = elim (Bool-cases (starts_with (x ∷ xs) tag)) [
  | inl here ↦ ground (arith, h, here, starts_with-le (x ∷ xs) tag here)
  | inr gone ↦ elim (Option-cases (find xs tag)) [
    | inl e ↦ absurd (ground (arith, h, gone, e))
    | inr (j, e) ↦ ground (arith, h, gone, e, find-le xs tag j e)
  ]
]

ends_with_self : (plain part : Text) → ends_with (plain ++ part) part ≡ true
unfolding ends_with
ends_with_self plain part =
    let at : length (plain ++ part) - length part ≡ length plain =
      omega (arith, length-append plain part) in
    ap (λ k. starts_with (drop k (plain ++ part)) part) at
    ∙ ap (λ t. starts_with t part) (drop-append plain part)
    ∙ ap (λ t. starts_with t part) (sym (append-nil part))
    ∙ starts_with_self part []

find-miss :
    (x : ℕ) (xs tag : Text)
    → starts_with (x ∷ xs) tag ≡ false
    → find (x ∷ xs) tag ≡ after_one (find xs tag)
unfolding find
find-miss x xs tag h = rw h refl

find-hit : (text tag : Text) → starts_with text tag ≡ true → find text tag ≡ some 0
unfolding find
find-hit [] tag h = rw h refl
find-hit (x ∷ xs) tag h = rw h refl

find-long : (text tag : Text) → length text < length tag → find text tag ≡ none
find-long text tag h = elim (Option-cases (find text tag)) [
  | inl e ↦ e
  | inr (i, e) ↦ absurd (omega (arith, h, find-le text tag i e))
]

-- More text behind does not change where a marker is found.
pub find-append :
    (text tag more : Text) (i : ℕ) → find text tag ≡ some i → find (text ++ more) tag ≡ some i
unfolding find starts_with
find-append [] [] more i h = find-hit more [] refl ∙ h
find-append [] (y ∷ ys) more i h = absurd (ground (arith, h))
find-append (x ∷ xs) tag more i h =
    let fits = find-le (x ∷ xs) tag i h in
    let same = starts_with-append (x ∷ xs) tag more (omega (arith, fits)) in
    elim (Bool-cases (starts_with (x ∷ xs) tag)) [
      | inl here ↦
          find-hit (x ∷ xs ++ more) tag (same ∙ here) ∙ sym (find-hit (x ∷ xs) tag here) ∙ h
      | inr gone ↦ elim (Option-cases (find xs tag)) [
        | inl e ↦ absurd (ground (arith, find-miss x xs tag gone, e, h))
        | inr (j, e) ↦
            find-miss x (xs ++ more) tag (same ∙ gone)
            ∙ ap after_one (find-append xs tag more j e ∙ sym e)
            ∙ sym (find-miss x xs tag gone)
            ∙ h
      ]
    ]

-- Where a marker is found behind text of a given length.
abbrev pub after : ℕ → Option ℕ → Option ℕ
after n none = none
after n (some i) = some (n + i)

after-zero : (o : Option ℕ) → after 0 o ≡ o
after-zero none = refl
after-zero (some i) = ap (λ k. some k) (omega arith)

after-suc : (n : ℕ) (o : Option ℕ) → after_one (after n o) ≡ after (suc n) o
after-suc n none = refl
after-suc n (some i) = ap (λ k. some k) (omega arith)

-- Two texts agree as far as both go on.
abbrev pub agree : Text → Text → Bool
agree [] ys = true
agree (x ∷ xs) [] = true
agree (x ∷ xs) (y ∷ ys) = (x == y) && agree xs ys

-- At no place does the text agree with the marker: it does not have it, and does not end with a
-- beginning of it.
abbrev pub IsPlain : Text → Text → Type 0
IsPlain tag [] = Unit
IsPlain tag (x ∷ xs) = (agree (x ∷ xs) tag ≡ false) × IsPlain tag xs

starts_with-agree :
    (text more tag : Text) → agree text tag ≡ false → starts_with (text ++ more) tag ≡ false
unfolding starts_with
starts_with-agree [] more tag h = absurd (ground (arith, h))
starts_with-agree (x ∷ xs) more [] h = absurd (ground (arith, h))
starts_with-agree (x ∷ xs) more (y ∷ ys) h = elim (Bool-cases (x == y)) [
  | inl same ↦ rw same (starts_with-agree xs more ys (ground (arith, h, same)))
  | inr other ↦ rw other refl
]

agree-append : (text more tag : Text) → agree text tag ≡ false → agree (text ++ more) tag ≡ false
agree-append [] more tag h = absurd (ground (arith, h))
agree-append (x ∷ xs) more [] h = absurd (ground (arith, h))
agree-append (x ∷ xs) more (y ∷ ys) h = elim (Bool-cases (x == y)) [
  | inl same ↦ rw same (agree-append xs more ys (ground (arith, h, same)))
  | inr other ↦ rw other refl
]

agree-take :
    (m : ℕ) (text tag : Text)
    → length text ≤ m
    → agree text tag ≡ false
    → agree text (take m tag) ≡ false
agree-take m [] tag le h = absurd (ground (arith, h))
agree-take zero (x ∷ xs) tag le h = absurd (omega (arith, le))
agree-take (suc m) (x ∷ xs) [] le h = absurd (ground (arith, h))
agree-take (suc m) (x ∷ xs) (y ∷ ys) le h = elim (Bool-cases (x == y)) [
  | inl same ↦ rw same (agree-take m xs ys (omega (arith, le)) (ground (arith, h, same)))
  | inr other ↦ rw other refl
]

pub IsPlain-suffix : (tag xs ys : Text) → IsPlain tag (xs ++ ys) → IsPlain tag ys
IsPlain-suffix tag [] ys h = h
IsPlain-suffix tag (x ∷ xs) ys h = IsPlain-suffix tag xs ys h.1

pub IsPlain-append : (tag xs ys : Text) → IsPlain tag xs → IsPlain tag ys → IsPlain tag (xs ++ ys)
IsPlain-append tag [] ys h k = k
IsPlain-append tag (x ∷ xs) ys h k =
    (agree-append (x ∷ xs) ys tag h.0, IsPlain-append tag xs ys h.1 k)

module _ (c : ℕ) (os : Text) where
  pub find_plain :
      (plain text : Text)
      → IsPlain (c ∷ os) plain
      → find (plain ++ text) (c ∷ os) ≡ after (length plain) (find text (c ∷ os))
  find_plain [] text h = sym (after-zero (find text (c ∷ os)))
  find_plain (x ∷ xs) text h =
      find-miss x (xs ++ text) (c ∷ os) (starts_with-agree (x ∷ xs) text (c ∷ os) h.0)
      ∙ ap after_one (find_plain xs text h.1)
      ∙ after-suc (length xs) (find text (c ∷ os))

  -- Behind plain text: a part of the marker, and a whole one.
  pub find_part :
      (plain part : Text)
      → IsPlain (c ∷ os) plain
      → length part < length (c ∷ os)
      → find (plain ++ part) (c ∷ os) ≡ none
  find_part plain part h short =
      find_plain plain part h ∙ ap (after (length plain)) (find-long part (c ∷ os) short)

  pub find_whole :
      (plain more : Text)
      → IsPlain (c ∷ os) plain
      → find (plain ++ (c ∷ os ++ more)) (c ∷ os) ≡ some (length plain)
  find_whole plain more h =
      let begins : starts_with (c ∷ os ++ more) (c ∷ os) ≡ true = starts_with_self (c ∷ os) more in
      find_plain plain (c ∷ os ++ more) h
      ∙ ap (after (length plain)) (find-hit (c ∷ os ++ more) (c ∷ os) begins)
      ∙ ap (λ k. some k) (omega arith)

  -- What the end of a text holds of a marker that has begun.
  drop_plain :
      (k m : ℕ) (plain text : Text)
      → k < length plain
      → length plain - k ≤ m
      → IsPlain (c ∷ os) plain
      → starts_with (drop k (plain ++ text)) (take m (c ∷ os)) ≡ false
  drop_plain k m [] text h le none_in = absurd (omega (arith, h))
  drop_plain zero m (x ∷ xs) text h le none_in =
      starts_with-agree (x ∷ xs) text (take m (c ∷ os))
        (agree-take m (x ∷ xs) (c ∷ os) (omega (arith, le)) none_in.0)
  drop_plain (suc k) m (x ∷ xs) text h le none_in =
      drop_plain k m xs text (omega (arith, h)) (omega (arith, le)) none_in.1

  partial_at :
      (n : ℕ) (plain part more : Text)
      → IsPlain (c ∷ os) plain
      → c ∷ os ≡ part ++ more
      → length part ≤ n
      → n ≤ length plain + length part
      → n < length (c ∷ os)
      → partial_upto n (plain ++ part) (c ∷ os) ≡ length part
  unfolding partial_upto ends_with
  partial_at zero plain part more h e lo hi short = omega (arith, lo)
  partial_at (suc n) plain part more h e lo hi short =
      let tag = c ∷ take n os in
      let size : length (plain ++ part) ≡ length plain + length part = length-append plain part in
      let long : length tag ≡ suc n = omega (arith, length-take n os, short) in
      elim (Bool-cases (suc n == length part)) [
        | inl last ↦
            let at : suc n ≡ length part = (==_iff (suc n) (length part)).0 last in
            let same : tag ≡ part =
              ap (take (suc n)) e ∙ ap (λ k. take k (part ++ more)) at ∙ take_append part more in
            let ends : ends_with (plain ++ part) tag ≡ true =
              ap (ends_with (plain ++ part)) same ∙ ends_with_self plain part in
            rw ends at
        | inr earlier ↦
            let k = length (plain ++ part) - length tag in
            let gone : ends_with (plain ++ part) tag ≡ false =
              drop_plain k (suc n) plain part (ground (arith, size, long, lo, earlier))
                (omega (arith, size, long)) h in
            rw gone (
              partial_at n plain part more h e (ground (arith, lo, earlier)) (omega (arith, hi))
                (omega (arith, short)))
      ]

  pub partial_part :
      (plain part : Text) (a : ℕ) (rest : Text)
      → IsPlain (c ∷ os) plain
      → c ∷ os ≡ part ++ a ∷ rest
      → trailing_partial (plain ++ part) (c ∷ os) ≡ length part
  unfolding trailing_partial
  partial_part plain part a rest h e =
      let size = ap length e ∙ length-append part (a ∷ rest) in
      partial_at (min (length (plain ++ part)) (length (c ∷ os) - 1)) plain part (a ∷ rest) h e
        (omega (arith, size, length-append plain part)) (omega (arith, length-append plain part))
        (omega (arith, size))

  -- A part of plain text has no marker.
  pub find_plain_part : (b next : Text) → IsPlain (c ∷ os) (b ++ next) → find b (c ∷ os) ≡ none
  find_plain_part b next h = elim (Option-cases (find b (c ∷ os))) [
    | inl gone ↦ gone
    | inr (j, e) ↦
        let whole = find_plain (b ++ next) [] h in
        let none_at_end = ap (after (length (b ++ next))) (find-long [] (c ∷ os) (omega arith)) in
        let longer = find-append (b ++ next) (c ∷ os) [] j (find-append b (c ∷ os) next j e) in
        absurd (ground (arith, sym longer ∙ whole ∙ none_at_end))
  ]
