-- ===== src/Reasoning/Held.antt =====
-- A stream without a tag, as the parser treats it.
use free_token_intel.Prelude.{
  ℕ, zero, suc, ◌-◌, min, ◌≡◌, refl, sym, ap, subst, ◌∙◌, inl, inr, false, none, some, List, [],
  ◌∷◌, ◌++◌, append_assoc, append-nil, arith, ltb, Bool-cases, length, take, drop,
  take_of_length-le, count, count-append, count-take-drop,
}
use free_token_intel.Reasoning.{
  Text, open_tag, starts_with, ends_with, find, partial_upto, trailing_partial, ThinkTagParser,
  Delta, emit_held, turn_found, turn, Parsed, yield_first, go_on, turns, parse_chunk, then_parse,
  parse_from, parse, flush,
}
use free_token_intel.Reasoning.Kept.{received}

abbrev pub joined : List Text → Text
joined [] = []
joined (c ∷ cs) = c ++ joined cs

-- Deltas without any text.
abbrev pub IsSilent : List Delta → Type 0
IsSilent [] = Unit
IsSilent (d ∷ ds) = (d ≡ ([], [])) × IsSilent ds

IsSilent-append : (ds es : List Delta) → IsSilent ds → IsSilent es → IsSilent (ds ++ es)
IsSilent-append [] es a b = b
IsSilent-append (d ∷ ds) es a b = (a.0, IsSilent-append ds es a.1 b)

no_start : (text part : Text) → count 60 text ≡ 0 → starts_with text (60 ∷ part) ≡ false
unfolding starts_with count
no_start [] part h = refl
no_start (x ∷ xs) part h = ground (arith, h)

find-none : (text : Text) → count 60 text ≡ 0 → find text open_tag ≡ none
unfolding find count starts_with
find-none [] h = refl
find-none (x ∷ xs) h =
    let miss = no_start (x ∷ xs) (drop 1 open_tag) h in
    rw (miss, find-none xs (omega (arith, h))) refl

partial_none : (n : ℕ) (text : Text) → count 60 text ≡ 0 → partial_upto n text open_tag ≡ 0
unfolding partial_upto ends_with
partial_none zero text h = refl
partial_none (suc n) text h =
    let part = take n (drop 1 open_tag) in
    let back = drop (length text - length (60 ∷ part)) text in
    let gone : count 60 back ≡ 0 =
      omega (arith, h, count-take-drop 60 (length text - length (60 ∷ part)) text) in
    rw (no_start back part gone, partial_none n text h) refl

abbrev outside : Text → ThinkTagParser
outside text = record { in_think = false; pending = text }

-- What comes of text without the first character of a tag.
pub record Holds (text : Text) (r : Parsed) : Type 0 where
  pub out : List Delta
  pub runs : r ≡ some (record { in_think = false; pending = text }, out)
  pub silent : IsSilent out

drop_all : (xs : Text) → drop (length xs) xs ≡ []
drop_all [] = refl
drop_all (x ∷ xs) = drop_all xs

emit_none :
    (again : ThinkTagParser → Parsed) (text : Text)
    → Holds text (go_on again (emit_held (outside text) (length text)))
emit_none again text = elim (Bool-cases (ltb 0 (length text))) [
  | inl more ↦ rw more (record {
    out = ([], drop (length text) text) ∷ [];
    runs =
        ap (λ t. some (outside t, ([], drop (length text) text) ∷ []))
          (take_of_length-le (length text) text (omega arith));
    silent = (ap (λ t. ([], t)) (drop_all text), tt);
  })
  | inr empty ↦ rw empty (record { out = []; runs = refl; silent = tt })
]

turns_none :
    (fuel : ℕ) (text : Text) → count 60 text ≡ 0 → Holds text (turns (suc fuel) (outside text))
unfolding turns turn trailing_partial
turns_none fuel text h =
    let n = min (length text) (length open_tag - 1) in
    let all : length text - partial_upto n text open_tag ≡ length text =
      omega (arith, partial_none n text h) in
    subst (λ f. Holds text (go_on (λ q. turns fuel q) (turn_found (outside text) f)))
      (sym (find-none text h))
      (subst (λ k. Holds text (go_on (λ q. turns fuel q) (emit_held (outside text) k))) (sym all)
        (emit_none (λ q. turns fuel q) text))

from_none :
    (held : Text) (chunks : List Text)
    → count 60 held ≡ 0
    → received 60 chunks ≡ 0
    → Holds (held ++ joined chunks) (parse_from (outside held) chunks)
unfolding parse_from parse_chunk
from_none held [] h z =
    subst (λ t. Holds t (some (outside held, []))) (sym (append-nil held))
      (record { out = []; runs = refl; silent = tt })
from_none held (chunk ∷ chunks) h z =
    let text = held ++ chunk in
    let clear : count 60 text ≡ 0 = omega (arith, h, z, count-append 60 held chunk) in
    let first = turns_none (length text) text clear in
    let rest = from_none text chunks clear (omega (arith, z)) in
    subst (λ t. Holds t (parse_from (outside held) (chunk ∷ chunks)))
      (append_assoc held chunk (joined chunks))
      (record {
        out = first.out ++ rest.out;
        runs =
            ap (then_parse (λ q. parse_from q chunks)) first.runs
            ∙ ap (yield_first first.out) rest.runs;
        silent = IsSilent-append first.out rest.out first.silent rest.silent;
      })

-- Of a stream without the character that a tag begins with, nothing is yielded while it is parsed: all
-- deltas are empty, the whole text is still pending at the end, and only `flush` gives it out.
pub parse-flush :
    (chunks : List Text)
    → received 60 chunks ≡ 0
    → Holds (joined chunks) (parse [] chunks)
      × (flush (outside (joined chunks)) ≡ (outside [], ([], joined chunks)))
unfolding parse flush count
parse-flush chunks h = (from_none [] chunks refl h, refl)
