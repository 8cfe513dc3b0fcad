-- ===== src/Examples/FunctionCalls.antt =====
-- Tool calls with Qwen's markers, <tool> and </tool>, on a json in which a value is its own text.
use free_token_intel.Prelude.{◌≡◌, refl, some, List, [], ◌∷◌, ◌++◌, drop, take, count}
use free_token_intel.Reasoning.{Text, starts_with, ends_with, find, partial_upto, trailing_partial}
use free_token_intel.FunctionCalls.{
  Json, tag, tag_close, tool_name, Parsed, turn, parse_json_object, tool_call, turns, parse_chunks,
  parse,
}
use free_token_intel.FunctionCalls.Stream.{Call, IsClean}
use free_token_intel.FunctionCalls.Chunks.{calls_from, parse-calls}

program : Unit {0}
unfolding starts_with ends_with find partial_upto trailing_partial turn parse_json_object tool_call
    turns parse_chunks parse count
program = tt

abbrev json : Json Text
json = record {
  strip = λ text. text;
  loads = λ text. some text;
  dumps = λ value. value;
  as_dict = λ value. some (λ key. some value);
  as_str = λ value. some value;
  of_str = λ text. text;
}

abbrev opener : Text
opener = tag tool_name

abbrev closer : Text
closer = tag_close tool_name

abbrev parsed : List Text → Parsed json
parsed chunks = parse json opener closer 0 chunks

-- "a<a<tool>1</tool>b<tool>2</tool>", cut behind the first "<" and within the markers.
abbrev chunks : List Text
chunks =
    (97 ∷ 60 ∷ [])
    ∷ (97 ∷ take 3 opener)
    ∷ (drop 3 opener ++ 49 ∷ take 2 closer)
    ∷ []
    ∷ (drop 2 closer ++ 98 ∷ opener ++ 50 ∷ [])
    ∷ closer
    ∷ []

abbrev calls : List Call
calls = (49 ∷ [], 98 ∷ []) ∷ (50 ∷ [], []) ∷ []

clean : IsClean 60 (drop 1 opener) closer (97 ∷ 60 ∷ 97 ∷ []) calls
unfolding program
clean = ((refl, (refl, (refl, tt))), refl, ((refl, tt), refl, tt))

parse-calls_example : (left : Text) × (parsed chunks ≡ some (2, left, calls_from json 0 calls))
parse-calls_example =
    parse-calls json 60 (drop 1 opener) closer 0 chunks (97 ∷ 60 ∷ 97 ∷ []) calls clean refl

-- The text before a call is joined to the text behind it, unless a chunk has ended in between: the
-- same stream has two calls in one piece, and one call in three.
joined_around :
    (parsed ((take 3 opener ++ opener ++ 49 ∷ closer ++ drop 3 opener ++ 50 ∷ closer) ∷ [])
      ≡ some (2, [], calls_from json 0 ((49 ∷ [], []) ∷ (50 ∷ [], []) ∷ [])))
    × (parsed (take 3 opener ∷ opener ∷ (49 ∷ closer ++ drop 3 opener ++ 50 ∷ closer) ∷ [])
        ≡ some (1, [], calls_from json 0 ((49 ∷ [], []) ∷ [])))
unfolding program
joined_around = (refl, refl)
