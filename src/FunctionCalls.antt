-- ===== src/FunctionCalls.antt =====
-- python/freetoken/server/function_call_parser.py: GenericTagParser, on any pair of markers. The json
-- module and str.strip are a parameter, and a JSON value an element of a parameter type; the id
-- `call_N` is the number N, and the ids handed out are their count.
pub mod Markers
pub mod Turns
pub mod Stream
pub mod Chunks
use free_token_intel.Prelude.{
  ℕ, zero, suc, ◌+◌, ◌-◌, Option, none, some, List, [], ◌∷◌, ◌++◌, ltb, if◌then◌else◌, length, take,
  drop,
}
use free_token_intel.Reasoning.{Text, find, trailing_partial}

-- `_tag(name)` and `_tag_close(name)`, and the markers of the two grammars.
abbrev pub tag : Text → Text
tag name = 60 ∷ name ++ 62 ∷ []

abbrev pub tag_close : Text → Text
tag_close name = 60 ∷ 47 ∷ name ++ 62 ∷ []

abbrev pub tool_name : Text
tool_name = 116 ∷ 111 ∷ 111 ∷ 108 ∷ []

-- What the parser uses of json and of str: `loads` gives none where it raises JSONDecodeError.
pub record Json (V : Type 0) : Type 0 where
  pub strip : Text → Text
  pub loads : Text → Option V
  pub dumps : V → Text
  pub as_dict : V → Option (Text → Option V)
  pub as_str : V → Option Text
  pub of_str : Text → V

pub record ToolCall (V : Type 0) : Type 0 where
  pub id : ℕ
  pub name : V
  pub arguments : Text

-- "name" and "arguments".
abbrev pub name_key : Text
name_key = 110 ∷ 97 ∷ 109 ∷ 101 ∷ []

abbrev pub arguments_key : Text
arguments_key = 97 ∷ 114 ∷ 103 ∷ 117 ∷ 109 ∷ 101 ∷ 110 ∷ 116 ∷ 115 ∷ []

abbrev pub shift_by : ℕ → Option ℕ → Option ℕ
shift_by start none = none
shift_by start (some i) = some (start + i)

-- `text.find(tag, start)`, for a start within the text.
abbrev pub find_from : Text → Text → ℕ → Option ℕ
find_from text tag start = shift_by start (find (drop start text) tag)

-- How a turn of `while True` ends: with what stays in the buffer, or with a body and the new buffer.
pub data Turn : Type 0 where
  breaks : Text → Turn
  extracts : Text → Text → Turn

module _ (open_marker close_marker : Text) where
  abbrev pub turn_opened : Text → ℕ → Option ℕ → Turn
  turn_opened buffer start none = Turn.breaks (drop start buffer)
  turn_opened buffer start (some end) =
      let from = start + length open_marker in
      Turn.extracts (take (end - from) (drop from buffer))
        (take start buffer ++ drop (end + length close_marker) buffer)

  abbrev pub turn_found : Text → Option ℕ → Turn
  turn_found buffer none =
      let keep = trailing_partial buffer open_marker in
      Turn.breaks (if ltb 0 keep then drop (length buffer - keep) buffer else [])
  turn_found buffer (some start) =
      turn_opened buffer start (find_from buffer close_marker (start + length open_marker))

  unfoldable pub turn : Text → Turn
  turn buffer = turn_found buffer (find buffer open_marker)

module _ {V : Type 0} (json : Json V) where
  abbrev pub dict_of : Option (Text → Option V) → Text → Option V
  dict_of none = λ key. none
  dict_of (some loaded) = loaded

  abbrev pub parse_loaded : Option V → Text → Option V
  parse_loaded none = λ key. none
  parse_loaded (some loaded) = dict_of (json.as_dict loaded)

  unfoldable pub parse_json_object : Text → Text → Option V
  parse_json_object blob = parse_loaded (json.loads blob)

  -- `args.get(key, "")`
  abbrev pub or_empty : Option V → V
  or_empty none = json.of_str []
  or_empty (some v) = v

  abbrev pub or_dumped : V → Option Text → Text
  or_dumped v none = json.dumps v
  or_dumped v (some s) = s

  unfoldable pub tool_call : ℕ → Text → ToolCall V
  tool_call id body =
      let args = parse_json_object (json.strip body) in
      let function_args = or_empty (args arguments_key) in
      record {
        id = id;
        name = or_empty (args name_key);
        arguments = or_dumped function_args (json.as_str function_args);
      }

  -- The ids handed out, the buffer and the calls yielded; none when the fuel runs out.
  abbrev pub Parsed : Type 0
  Parsed = Option (ℕ × Text × List (ToolCall V))

  abbrev pub yield_call : ToolCall V → Parsed → Parsed
  yield_call call none = none
  yield_call call (some (ids, buffer, more)) = some (ids, buffer, call ∷ more)

  abbrev pub yield_all : List (ToolCall V) → Parsed → Parsed
  yield_all calls none = none
  yield_all calls (some (ids, buffer, more)) = some (ids, buffer, calls ++ more)

  module _ (open_marker close_marker : Text) where
    abbrev pub go_on : (ℕ → Text → Parsed) → ℕ → Turn → Parsed
    go_on again ids (Turn.breaks buffer) = some (ids, buffer, [])
    go_on again ids (Turn.extracts body buffer) =
        yield_call (tool_call ids body) (again (suc ids) buffer)

    unfoldable pub turns : ℕ → ℕ → Text → Parsed
    turns zero ids buffer = none
    turns (suc fuel) ids buffer =
        go_on (λ i b. turns fuel i b) ids (turn open_marker close_marker buffer)

    abbrev pub then_parse : (ℕ → Text → Parsed) → Parsed → Parsed
    then_parse rest none = none
    then_parse rest (some (ids, buffer, calls)) = yield_all calls (rest ids buffer)

    -- A turn that goes on takes two markers out, so one turn more than there are code points is enough.
    unfoldable pub parse_chunks : ℕ → Text → List Text → Parsed
    parse_chunks ids buffer [] = some (ids, buffer, [])
    parse_chunks ids buffer (chunk ∷ chunks) =
        then_parse (λ i b. parse_chunks i b chunks)
          (turns (suc (length (buffer ++ chunk))) ids (buffer ++ chunk))

    unfoldable pub parse : ℕ → List Text → Parsed
    parse ids chunks = parse_chunks ids [] chunks
