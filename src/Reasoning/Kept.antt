-- ===== src/Reasoning/Kept.antt =====
-- What the parser yields of a stream: every code point of it but those of the tags.
use free_token_intel.Prelude.{
  ℕ, zero, suc, ◌+◌, ◌-◌, ◌≤◌, ◌<◌, ◌≡◌, refl, sym, ap, subst, ◌∙◌, inl, inr, Bool, true, false,
  not, Option, none, some, List, [], ◌∷◌, ◌++◌, arith, ltb, if◌then◌else◌, Bool-cases, Option-cases,
  length, take, drop, length-drop, count, count-append, count-take-drop,
}
use free_token_intel.Reasoning.{
  Text, open_tag, close_tag, starts_with, find, after_one, partial_upto, trailing_partial,
  ThinkTagParser, Delta, next_tag, delta, yield_some, emit_held, turn_found, turn, Parsed,
  yield_first, go_on, turns, parse_chunk, then_parse, parse_from, parse,
}

-- The code points of deltas and of chunks.
abbrev pub yielded : ℕ → List Delta → ℕ
yielded x [] = 0
yielded x (d ∷ ds) = count x d.0 + count x d.1 + yielded x ds

abbrev pub received : ℕ → List Text → ℕ
received x [] = 0
received x (c ∷ cs) = count x c + received x cs

yielded-append : (x : ℕ) (ds es : List Delta) → yielded x (ds ++ es) ≡ yielded x ds + yielded x es
yielded-append x [] es = omega arith
yielded-append x (d ∷ ds) es = omega (arith, yielded-append x ds es)

starts_with-count :
    (text tag : Text) (x : ℕ)
    → starts_with text tag ≡ true
    → (count x text ≡ count x tag + count x (drop (length tag) text)) × (length tag ≤ length text)
unfolding starts_with count
starts_with-count text [] x h = (omega arith, omega arith)
starts_with-count [] (y ∷ ys) x h = absurd (ground arith)
starts_with-count (a ∷ bs) (y ∷ ys) x h =
    let inner = starts_with-count bs ys x (ground (arith, h)) in
    (ground (arith, h, inner.0), omega (arith, inner.1))

abbrev Divides : Text → Text → ℕ → ℕ → Type 0
Divides text tag i x =
    (count x text ≡ count x (take i text) + count x tag + count x (drop (i + length tag) text))
    × (i + length tag ≤ length text)

found_here :
    (text tag : Text) (i x : ℕ) → starts_with text tag ≡ true → i ≡ 0 → Divides text tag i x
unfolding count
found_here text tag i x h e =
    let (all, fits) = starts_with-count text tag x h in
    let same : i + length tag ≡ length tag = omega (arith, e) in
    subst
      (λ k.
        (count x text ≡ count x (take i text) + count x tag + count x (drop k text))
        × (k ≤ length text))
      (sym same) (omega (arith, all, ap (λ j. count x (take j text)) e), fits)

found_later :
    (a : ℕ) (bs tag : Text) (i x : ℕ) (later : Option ℕ)
    → ((j : ℕ) → later ≡ some j → Divides bs tag j x)
    → after_one later ≡ some i
    → Divides (a ∷ bs) tag i x
unfolding count
found_later a bs tag i x none inner h = absurd (ground arith)
found_later a bs tag i x (some j) inner h =
    let e : suc j ≡ i = ground (arith, h) in
    let next : suc j + length tag ≡ suc (j + length tag) = omega arith in
    let (all, fits) = inner j refl in
    subst (λ k. Divides (a ∷ bs) tag k x) e
      (subst
        (λ k.
          (count x (a ∷ bs)
            ≡ count x (take (suc j) (a ∷ bs)) + count x tag + count x (drop k (a ∷ bs)))
          × (k ≤ length (a ∷ bs)))
        (sym next) (omega (arith, all), omega (arith, fits)))

-- A tag that is found divides the text into what is before it, itself and what is behind it.
find-count : (text tag : Text) (i x : ℕ) → find text tag ≡ some i → Divides text tag i x
unfolding find
find-count [] tag i x h = elim (Bool-cases (starts_with [] tag)) [
  | inl yes_here ↦ found_here [] tag i x yes_here (ground (arith, h, yes_here))
  | inr not_here ↦ absurd (ground (arith, h, not_here))
]
find-count (a ∷ bs) tag i x h = elim (Bool-cases (starts_with (a ∷ bs) tag)) [
  | inl yes_here ↦ found_here (a ∷ bs) tag i x yes_here (ground (arith, h, yes_here))
  | inr not_here ↦
      found_later a bs tag i x (find bs tag) (λ j e. find-count bs tag j x e)
        (ground (arith, h, not_here))
]

partial_upto-le : (n : ℕ) (text tag : Text) → partial_upto n text tag ≤ n
unfolding partial_upto
partial_upto-le zero text tag = omega arith
partial_upto-le (suc n) text tag = ground (arith, partial_upto-le n text tag)

abbrev pub times : ℕ → ℕ → ℕ
times zero n = 0
times (suc k) n = n + times k n

times-add : (j k n i : ℕ) → i ≡ j + k → times i n ≡ times j n + times k n
times-add zero k n i e =
    let same : i ≡ k = omega (arith, e) in omega (arith, ap (λ m. times m n) same)
times-add (suc j) k n zero e = absurd (omega arith)
times-add (suc j) k n (suc i) e = omega (arith, times-add j k n i (omega arith))

-- The tags that are taken off: a state, and how many of each so far.
abbrev pub tags : ℕ → ℕ → ℕ → ℕ
tags x opened closed = times opened (count x open_tag) + times closed (count x close_tag)

-- What parsing from `p` yields and leaves, when `text` counts what comes in.
pub record Yields (p : ThinkTagParser) (text : ℕ → ℕ) (r : Parsed) : Type 0 where
  pub last : ThinkTagParser
  pub out : List Delta
  pub opened : ℕ
  pub closed : ℕ
  pub runs : r ≡ some (last, out)
  pub kept :
      (x : ℕ)
      → yielded x out + count x last.pending + tags x opened closed ≡ count x p.pending + text x
  pub alternate : opened + (if p.in_think then 1 else 0) ≡ closed + (if last.in_think then 1 else 0)

yield_some-count : (b : Bool) (text : Text) (x : ℕ) → yielded x (yield_some b text) ≡ count x text
unfolding count
yield_some-count true [] x = omega arith
yield_some-count false [] x = omega arith
yield_some-count true (y ∷ ys) x = omega arith
yield_some-count false (y ∷ ys) x = omega arith

-- A turn that breaks yields a part of what is pending and keeps the rest.
emit_held-Yields :
    (again : ThinkTagParser → Parsed) (p : ThinkTagParser) (n : ℕ)
    → Yields p (λ x. 0) (go_on again (emit_held p n))
unfolding count
emit_held-Yields again p n = elim (Bool-cases (ltb 0 n)) [
  | inl some_out ↦ rw some_out (record {
    last = record p { pending = take n p.pending };
    out = delta p.in_think (drop n p.pending) ∷ [];
    opened = 0;
    closed = 0;
    runs = refl;
    kept = λ x. ground (arith, count-take-drop x n p.pending);
    alternate = omega arith;
  })
  | inr none_out ↦ rw none_out (record {
    last = p;
    out = [];
    opened = 0;
    closed = 0;
    runs = refl;
    kept = λ x. omega arith;
    alternate = omega arith;
  })
]

-- A turn that goes on takes off one tag.
took_tag :
    (b : Bool) (pending : Text) (i : ℕ) (r : Parsed)
    → ((x : ℕ) → Divides pending (next_tag b) i x)
    → Yields
        (record { in_think = not b; pending = drop (i + length (next_tag b)) pending })
        (λ x. 0)
        r
    → Yields
        (record { in_think = b; pending = pending })
        (λ x. 0)
        (yield_first (yield_some b (take i pending)) r)
took_tag true pending i r d y = record {
  last = y.last;
  out = yield_some true (take i pending) ++ y.out;
  opened = y.opened;
  closed = suc y.closed;
  runs = ap (yield_first (yield_some true (take i pending))) y.runs;
  kept = λ x. omega (
    arith,
    y.kept x,
    (d x).0,
    yielded-append x (yield_some true (take i pending)) y.out,
    yield_some-count true (take i pending) x,
  );
  alternate = omega (arith, y.alternate);
}
took_tag false pending i r d y = record {
  last = y.last;
  out = yield_some false (take i pending) ++ y.out;
  opened = suc y.opened;
  closed = y.closed;
  runs = ap (yield_first (yield_some false (take i pending))) y.runs;
  kept = λ x. omega (
    arith,
    y.kept x,
    (d x).0,
    yielded-append x (yield_some false (take i pending)) y.out,
    yield_some-count false (take i pending) x,
  );
  alternate = omega (arith, y.alternate);
}

tag_length : (b : Bool) → 0 < length (next_tag b)
tag_length true = ground arith
tag_length false = ground arith

pub turns-Yields :
    (fuel : ℕ) (p : ThinkTagParser) → length p.pending < fuel → Yields p (λ x. 0) (turns fuel p)
unfolding turns turn
turns-Yields zero p h = absurd (omega (arith, h))
turns-Yields (suc fuel) p h = elim (Option-cases (find p.pending (next_tag p.in_think))) [
  | inl missing ↦
      subst (λ f. Yields p (λ x. 0) (go_on (λ q. turns fuel q) (turn_found p f))) (sym missing)
        (emit_held-Yields (λ q. turns fuel q) p
          (length p.pending - trailing_partial p.pending (next_tag p.in_think)))
  | inr (i, found) ↦
      let tag = next_tag p.in_think in
      let fits = (find-count p.pending tag i 0 found).1 in
      let rest : ThinkTagParser = record {
        in_think = not p.in_think;
        pending = drop (i + length tag) p.pending;
      } in
      let short : length rest.pending < fuel =
        omega (arith, length-drop (i + length tag) p.pending, fits, h, tag_length p.in_think) in
      subst (λ f. Yields p (λ x. 0) (go_on (λ q. turns fuel q) (turn_found p f))) (sym found)
        (took_tag p.in_think p.pending i (turns fuel rest) (λ x. find-count p.pending tag i x found)
          (turns-Yields fuel rest short))
]

parse_chunk-Yields :
    (p : ThinkTagParser) (chunk : Text) → Yields p (λ x. count x chunk) (parse_chunk p chunk)
unfolding parse_chunk
parse_chunk-Yields p chunk =
    let held = p.pending ++ chunk in
    let y = turns-Yields (suc (length held)) (record p { pending = held }) (omega arith) in
    record {
      last = y.last;
      out = y.out;
      opened = y.opened;
      closed = y.closed;
      runs = y.runs;
      kept = λ x. omega (arith, y.kept x, count-append x p.pending chunk);
      alternate = y.alternate;
    }

parse_from-Yields :
    (p : ThinkTagParser) (chunks : List Text)
    → Yields p (λ x. received x chunks) (parse_from p chunks)
unfolding parse_from
parse_from-Yields p [] = record {
  last = p;
  out = [];
  opened = 0;
  closed = 0;
  runs = refl;
  kept = λ x. omega arith;
  alternate = omega arith;
}
parse_from-Yields p (chunk ∷ chunks) =
    let a = parse_chunk-Yields p chunk in
    let b = parse_from-Yields a.last chunks in
    record {
      last = b.last;
      out = a.out ++ b.out;
      opened = a.opened + b.opened;
      closed = a.closed + b.closed;
      runs = ap (then_parse (λ q. parse_from q chunks)) a.runs ∙ ap (yield_first a.out) b.runs;
      kept = λ x. omega (
        arith,
        a.kept x,
        b.kept x,
        yielded-append x a.out b.out,
        times-add a.opened b.opened (count x open_tag) (a.opened + b.opened) refl,
        times-add a.closed b.closed (count x close_tag) (a.closed + b.closed) refl,
      );
      alternate = omega (arith, a.alternate, b.alternate);
    }

-- Parsing any chunks comes to an end, and no code point is lost or doubled: counted over the reasoning,
-- the content and what is still pending, there are as many of each as were pending before and came in,
-- but for those of the tags taken off, which are opening and closing ones in turn.
pub parse-Yields :
    (pending : Text) (chunks : List Text)
    → Yields
        (record { in_think = false; pending = pending })
        (λ x. received x chunks)
        (parse pending chunks)
unfolding parse
parse-Yields pending chunks =
    parse_from-Yields (record { in_think = false; pending = pending }) chunks
