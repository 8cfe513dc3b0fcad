-- ===== src/Examples/Reasoning.antt =====
-- Parsing "hi" with a thinking block around it, and a stream without a tag.
use free_token_intel.Prelude.{◌≡◌, refl, false, some, List, [], ◌∷◌, ◌++◌, drop, count}
use free_token_intel.Reasoning.{
  Text, open_tag, close_tag, starts_with, ends_with, find, partial_upto, trailing_partial, turn,
  turns, parse_chunk, parse_from, parse, flush,
}
use free_token_intel.Reasoning.Kept.{received, Yields, parse-Yields}
use free_token_intel.Reasoning.Held.{joined, Holds, parse-flush}

program : Unit {0}
unfolding starts_with ends_with find partial_upto trailing_partial turn turns parse_chunk parse_from
    parse flush count
program = tt

abbrev block : List Text
block = (open_tag ++ 104 ∷ 105 ∷ close_tag) ∷ (111 ∷ 107 ∷ []) ∷ []

-- The block is reasoning; what follows it waits for `flush`.
block_parsed :
    parse [] block
    ≡ some (
      record { in_think = false; pending = 111 ∷ 107 ∷ [] },
      (104 ∷ 105 ∷ [], []) ∷ ([], []) ∷ [],
    )
unfolding program
block_parsed = refl

-- A tag that is split between chunks is not found, and its first part overtakes the text before it.
split_tag :
    parse [] ((97 ∷ 60 ∷ []) ∷ drop 1 open_tag ∷ [])
    ≡ some
        (record { in_think = false; pending = 97 ∷ drop 1 open_tag }, ([], 60 ∷ []) ∷ ([], []) ∷ [])
unfolding program
split_tag = refl

parse-Yields_example :
    Yields (record { in_think = false; pending = [] }) (λ x. received x block) (parse [] block)
parse-Yields_example = parse-Yields [] block

abbrev plain : List Text
plain = (97 ∷ 98 ∷ []) ∷ (99 ∷ []) ∷ []

parse-flush_example :
    Holds (joined plain) (parse [] plain)
    × (flush (record { in_think = false; pending = joined plain })
        ≡ (record { in_think = false; pending = [] }, ([], joined plain)))
unfolding program
parse-flush_example = parse-flush plain refl
