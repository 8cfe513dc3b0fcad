-- ===== src/FunctionCalls/Chunks.antt =====
-- The calls of a well-formed stream, however it is cut into chunks.
use free_token_intel.Prelude.{
  ℕ, zero, suc, ◌+◌, ◌<◌, ◌≡◌, refl, sym, ap, ◌∙◌, some, List, [], ◌∷◌, ◌++◌, append_assoc, arith,
  length, length-append,
}
use free_token_intel.Reasoning.{Text}
use free_token_intel.Reasoning.Held.{joined}
use free_token_intel.FunctionCalls.{
  Json, ToolCall, tool_call, Parsed, yield_call, yield_all, go_on, turns, then_parse, parse_chunks,
  parse,
}
use free_token_intel.FunctionCalls.Stream.{Call, render, IsClean, Ends, turn-Ends}

module _ {V : Type 0} (json : Json V) where
  -- The calls of some bodies, numbered from `id`.
  abbrev pub calls_from : ℕ → List Call → List (ToolCall V)
  calls_from id [] = []
  calls_from id (call ∷ calls) = tool_call json id call.0 ∷ calls_from (suc id) calls

  calls_from-append :
      (id : ℕ) (done rest : List Call) (n : ℕ)
      → n ≡ id + length done
      → calls_from id (done ++ rest) ≡ calls_from id done ++ calls_from n rest
  calls_from-append id [] rest n e = ap (λ k. calls_from k rest) (omega (arith, e))
  calls_from-append id (call ∷ done) rest n e =
      ap (λ l. tool_call json id call.0 ∷ l)
        (calls_from-append (suc id) done rest n (omega (arith, e)))

  module _ (c : ℕ) (os close : Text) where
    -- What a loop over the buffer comes to.
    record Turned (ids : ℕ) (t : Text) (calls : List Call) (r : Parsed json) : Type 0 where
      left : Text
      done : List Call
      next : Text
      rest : List Call
      divides : calls ≡ done ++ rest
      runs : r ≡ some (ids + length done, left, calls_from ids done)
      joins : left ++ t ≡ render c os close next rest
      clean : IsClean c os close next rest
      ended : t ≡ [] → rest ≡ []

    turns-Turned :
        (fuel ids : ℕ) (b t plain : Text) (calls : List Call)
        → IsClean c os close plain calls
        → b ++ t ≡ render c os close plain calls
        → length b < fuel
        → Turned ids t calls (turns json (c ∷ os) close fuel ids b)
    unfolding turns
    turns-Turned zero ids b t plain calls clean h enough = absurd (omega (arith, enough))
    turns-Turned (suc fuel) ids b t plain calls clean h enough =
        elim (turn-Ends c os close b t plain calls clean h) [
          | Ends.waits left next runs joins ok_next ended ↦ record {
            left = left;
            done = [];
            next = next;
            rest = calls;
            divides = refl;
            runs =
                ap (go_on json (c ∷ os) close (λ i x. turns json (c ∷ os) close fuel i x) ids) runs
                ∙ ap (λ i. some (i, left, [])) (omega arith);
            joins = joins;
            clean = ok_next;
            ended = ended;
          }
          | Ends.yields call rest left e runs joins ok_next less ↦
              let inner =
                turns-Turned fuel (suc ids) left t (plain ++ call.1) rest ok_next joins
                  (omega (arith, less, enough)) in
              record {
                left = inner.left;
                done = call ∷ inner.done;
                next = inner.next;
                rest = inner.rest;
                divides = e ∙ ap (◌∷◌ call) inner.divides;
                runs =
                    ap (go_on json (c ∷ os) close (λ i x. turns json (c ∷ os) close fuel i x) ids)
                      runs
                    ∙ ap (yield_call json (tool_call json ids call.0)) inner.runs
                    ∙ ap (λ i. some (i, inner.left, calls_from ids (call ∷ inner.done)))
                        (omega arith);
                joins = inner.joins;
                clean = inner.clean;
                ended = inner.ended;
              }
        ]

    parse_chunks-calls :
        (ids : ℕ) (b : Text) (chunks : List Text) (plain : Text) (calls : List Call)
        → IsClean c os close plain calls
        → b ++ joined chunks ≡ render c os close plain calls
        → (joined chunks ≡ [] → calls ≡ [])
        → (left : Text) × (parse_chunks json (c ∷ os) close ids b chunks
            ≡ some (ids + length calls, left, calls_from ids calls))
    unfolding parse_chunks
    parse_chunks-calls ids b [] plain calls clean h ended = (
      b,
      sym (
          ap (λ l. some (ids + length l, b, calls_from ids l)) (ended refl)
          ∙ ap (λ i. some (i, b, [])) (omega arith)),
    )
    parse_chunks-calls ids b (chunk ∷ chunks) plain calls clean h ended =
        let held = b ++ chunk in
        let f =
          turns-Turned (suc (length held)) ids held (joined chunks) plain calls clean
            (append_assoc b chunk (joined chunks) ∙ h) (omega arith) in
        let (left, rest) =
          parse_chunks-calls (ids + length f.done) f.left chunks f.next f.rest f.clean f.joins
            f.ended in
        let total : ids + length f.done + length f.rest ≡ ids + length calls =
          omega (arith, ap length f.divides, length-append f.done f.rest) in
        let all : calls_from ids f.done ++ calls_from (ids + length f.done) f.rest
            ≡ calls_from ids calls =
          sym (
            ap (calls_from ids) f.divides
            ∙ calls_from-append ids f.done f.rest (ids + length f.done) refl) in
        (
          left,
          ap (then_parse json (c ∷ os) close (λ i x. parse_chunks json (c ∷ os) close i x chunks))
                f.runs
              ∙ ap (yield_all json (calls_from ids f.done)) rest
              ∙ (λ i. some (total i, left, all i)),
        )

    no_calls : (plain : Text) (calls : List Call) → render c os close plain calls ≡ [] → calls ≡ []
    no_calls plain [] h = refl
    no_calls plain (call ∷ calls) h = absurd (
        omega (
          arith,
          ap length h,
          length-append plain (c ∷ os ++ ((call.0 ++ close) ++ render c os close call.1 calls)),
        ))

    -- Of a stream of plain texts and marked bodies, where no plain text has the opening marker or ends with
    -- a beginning of it, and no body has the closing marker before its own: parsing ends, and yields one
    -- call for each body, in order and with the next ids, however the stream is cut into chunks.
    pub parse-calls :
        (ids : ℕ) (chunks : List Text) (plain : Text) (calls : List Call)
        → IsClean c os close plain calls
        → joined chunks ≡ render c os close plain calls
        → (left : Text) × (parse json (c ∷ os) close ids chunks
            ≡ some (ids + length calls, left, calls_from ids calls))
    unfolding parse
    parse-calls ids chunks plain calls clean h =
        parse_chunks-calls ids [] chunks plain calls clean h (λ e. no_calls plain calls (sym h ∙ e))
