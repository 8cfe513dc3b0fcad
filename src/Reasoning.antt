-- ===== src/Reasoning.antt =====
-- python/freetoken/server/reasoning_parser.py: `ThinkTagParser`. A string is a list of code points.
pub mod Kept
pub mod Held
use free_token_intel.Prelude.{
  ℕ, zero, suc, ◌+◌, ◌-◌, min, Bool, true, false, not, ◌&&◌, Option, none, some, List, [], ◌∷◌,
  ◌++◌, ltb, ◌==◌, if◌then◌else◌, length, take, drop,
}

abbrev pub Text : Type 0
Text = List ℕ

-- `_OPEN` and `_CLOSE`.
abbrev pub open_tag : Text
open_tag = 60 ∷ 116 ∷ 104 ∷ 105 ∷ 110 ∷ 107 ∷ 62 ∷ []

abbrev pub close_tag : Text
close_tag = 60 ∷ 47 ∷ 116 ∷ 104 ∷ 105 ∷ 110 ∷ 107 ∷ 62 ∷ []

unfoldable pub starts_with : Text → Text → Bool
starts_with text [] = true
starts_with [] (y ∷ ys) = false
starts_with (x ∷ xs) (y ∷ ys) = (x == y) && starts_with xs ys

-- `text.endswith(tag[:n])`, where the part is not longer than the text.
unfoldable pub ends_with : Text → Text → Bool
ends_with text part = starts_with (drop (length text - length part) text) part

abbrev pub after_one : Option ℕ → Option ℕ
after_one none = none
after_one (some i) = some (suc i)

-- `text.find(tag)`, with none for -1.
unfoldable pub find : Text → Text → Option ℕ
find [] tag = if starts_with [] tag then some 0 else none
find (x ∷ xs) tag =
    let later = find xs tag in if starts_with (x ∷ xs) tag then some 0 else after_one later

unfoldable pub partial_upto : ℕ → Text → Text → ℕ
partial_upto zero text tag = 0
partial_upto (suc n) text tag =
    let shorter = partial_upto n text tag in
    if ends_with text (take (suc n) tag) then suc n else shorter

unfoldable pub trailing_partial : Text → Text → ℕ
trailing_partial text tag = partial_upto (min (length text) (length tag - 1)) text tag

pub record ThinkTagParser : Type 0 where
  pub in_think : Bool
  pub pending : Text

-- A pair that is yielded: the reasoning and the content.
abbrev pub Delta : Type 0
Delta = Text × Text

-- The two halves of the loop differ in the tag that they look for and in the side that they yield on.
abbrev pub next_tag : Bool → Text
next_tag in_think = if in_think then close_tag else open_tag

abbrev pub delta : Bool → Text → Delta
delta in_think text = if in_think then (text, []) else ([], text)

abbrev pub yield_some : Bool → Text → List Delta
yield_some in_think [] = []
yield_some in_think (x ∷ xs) = delta in_think (x ∷ xs) ∷ []

-- How a turn of `while True` ends, with what it yields.
pub data Turn : Type 0 where
  breaks : ThinkTagParser → List Delta → Turn
  continues : ThinkTagParser → List Delta → Turn

abbrev pub emit_held : ThinkTagParser → ℕ → Turn
emit_held p emit_from =
    if ltb 0 emit_from
    then Turn.breaks (record p { pending = take emit_from p.pending })
        (delta p.in_think (drop emit_from p.pending) ∷ [])
    else Turn.breaks p []

abbrev pub turn_found : ThinkTagParser → Option ℕ → Turn
turn_found p none =
    emit_held p (length p.pending - trailing_partial p.pending (next_tag p.in_think))
turn_found p (some i) =
    Turn.continues
      (record {
        in_think = not p.in_think;
        pending = drop (i + length (next_tag p.in_think)) p.pending;
      })
      (yield_some p.in_think (take i p.pending))

unfoldable pub turn : ThinkTagParser → Turn
turn p = turn_found p (find p.pending (next_tag p.in_think))

abbrev pub Parsed : Type 0
Parsed = Option (ThinkTagParser × List Delta)

abbrev pub yield_first : List Delta → Parsed → Parsed
yield_first out none = none
yield_first out (some (p, more)) = some (p, out ++ more)

abbrev pub go_on : (ThinkTagParser → Parsed) → Turn → Parsed
go_on again (Turn.breaks p out) = some (p, out)
go_on again (Turn.continues p out) = yield_first out (again p)

-- `while True`, none when the fuel runs out.
unfoldable pub turns : ℕ → ThinkTagParser → Parsed
turns zero p = none
turns (suc fuel) p = go_on (λ q. turns fuel q) (turn p)

-- A turn that goes on takes a tag off, so one turn more than there are code points is enough.
unfoldable pub parse_chunk : ThinkTagParser → Text → Parsed
parse_chunk p chunk =
    let held = p.pending ++ chunk in turns (suc (length held)) (record p { pending = held })

abbrev pub then_parse : (ThinkTagParser → Parsed) → Parsed → Parsed
then_parse rest none = none
then_parse rest (some (p, out)) = yield_first out (rest p)

unfoldable pub parse_from : ThinkTagParser → List Text → Parsed
parse_from p [] = some (p, [])
parse_from p (chunk ∷ chunks) = then_parse (λ q. parse_from q chunks) (parse_chunk p chunk)

-- `parse` on what is pending from before.
unfoldable pub parse : Text → List Text → Parsed
parse pending chunks = parse_from (record { in_think = false; pending = pending }) chunks

unfoldable pub flush : ThinkTagParser → ThinkTagParser × Delta
flush p = (record p { pending = [] }, ([], p.pending))
