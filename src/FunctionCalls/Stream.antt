-- ===== src/FunctionCalls/Stream.antt =====
-- The calls of a well-formed stream, however it is cut into chunks.
use free_token_intel.Prelude.{
  ℕ, ◌<◌, ◌≡◌, refl, sym, ap, subst, ◌∙◌, inl, inr, Option-cases, none, some, List, [], ◌∷◌, ◌++◌,
  append_assoc, arith, length, length-append,
}
use free_token_intel.Reasoning.{Text, find}
use free_token_intel.FunctionCalls.{Turn, turn}
use free_token_intel.FunctionCalls.Markers.{
  IsPlain, IsPlain-suffix, IsPlain-append, Split, append-Split, find-append, find-le,
}
use free_token_intel.FunctionCalls.Turns.{turn_part, turn_plain, turn_open, turn_closed}

-- A call in a stream: its body, and the text behind its closing marker.
abbrev pub Call : Type 0
Call = Text × Text

module _ (c : ℕ) (os close : Text) where
  abbrev pub render : Text → List Call → Text
  render plain [] = plain
  render plain (call ∷ calls) = plain ++ (c ∷ os ++ ((call.0 ++ close) ++ render call.1 calls))

  -- No plain text has the opening marker or ends with a beginning of it, and no body has the closing
  -- marker before its own.
  abbrev pub IsClean : Text → List Call → Type 0
  IsClean plain [] = IsPlain (c ∷ os) plain
  IsClean plain (call ∷ calls) =
      (IsPlain (c ∷ os) plain)
      × (find (call.0 ++ close) close ≡ some (length call.0))
      × IsClean call.1 calls

  IsPlain-IsClean :
      (plain : Text) (calls : List Call) → IsClean plain calls → IsPlain (c ∷ os) plain
  IsPlain-IsClean plain [] h = h
  IsPlain-IsClean plain (call ∷ calls) h = h.0

  IsClean-plain :
      (plain other : Text) (calls : List Call)
      → IsClean plain calls
      → IsPlain (c ∷ os) other
      → IsClean other calls
  IsClean-plain plain other [] h k = k
  IsClean-plain plain other (call ∷ calls) h k = (k, h.1, h.2)

  render-append :
      (x plain : Text) (calls : List Call) → render (x ++ plain) calls ≡ x ++ render plain calls
  render-append x plain [] = refl
  render-append x plain (call ∷ calls) =
      append_assoc x plain (c ∷ os ++ ((call.0 ++ close) ++ render call.1 calls))

  -- How a turn can end on the part `b` of a stream of which `t` is still to come.
  pub data Ends (b t plain : Text) (calls : List Call) : Type 0 where
    waits :
        (left next : Text)
        → turn (c ∷ os) close b ≡ Turn.breaks left
        → left ++ t ≡ render next calls
        → IsClean next calls
        → (t ≡ [] → calls ≡ [])
        → Ends b t plain calls
    yields :
        (call : Call) (rest : List Call) (left : Text)
        → calls ≡ call ∷ rest
        → turn (c ∷ os) close b ≡ Turn.extracts call.0 left
        → left ++ t ≡ render (plain ++ call.1) rest
        → IsClean (plain ++ call.1) rest
        → length left < length b
        → Ends b t plain calls

  no_more :
      (a : ℕ) (rest vs t : Text) (calls : List Call) → t ≡ a ∷ rest ++ vs → t ≡ [] → calls ≡ []
  no_more a rest vs t calls h k = absurd (ground (arith, sym h ∙ k))

  -- All of the buffer is plain text.
  lets_go :
      (b t plain next : Text) (calls : List Call)
      → plain ≡ b ++ next
      → t ≡ render next calls
      → IsClean plain calls
      → (t ≡ [] → calls ≡ [])
      → Ends b t plain calls
  lets_go b t plain next calls e k clean ended =
      let all = IsPlain-IsClean plain calls clean in
      let (x, left, divides, breaks) =
        turn_plain c os close b next (subst (IsPlain (c ∷ os)) e all) in
      let same : plain ≡ x ++ (left ++ next) =
        e ∙ ap (λ y. y ++ next) (sym divides) ∙ append_assoc x left next in
      Ends.waits left (left ++ next) breaks
        (ap (λ y. left ++ y) k ∙ sym (render-append left next calls))
        (IsClean-plain plain (left ++ next) calls clean
          (IsPlain-suffix (c ∷ os) x (left ++ next) (subst (IsPlain (c ∷ os)) same all)))
        ended

  -- Only a part of a body and its closing marker.
  find_open :
      (body r more : Text)
      → body ++ close ≡ r ++ more
      → 0 < length more
      → find (body ++ close) close ≡ some (length body)
      → find r close ≡ none
  find_open body r more e some_more h = elim (Option-cases (find r close)) [
    | inl gone ↦ gone
    | inr (j, found) ↦
        let same = sym (find-append r close more j found) ∙ ap (λ t. find t close) (sym e) ∙ h in
        let at : j ≡ length body = ground (arith, same) in
        absurd (
          omega (
            arith,
            at,
            find-le r close j found,
            ap length e,
            length-append body close,
            length-append r more,
            some_more,
          ))
  ]

  -- Past the opening marker.
  opened-Ends :
      (b t plain r : Text) (call : Call) (calls : List Call)
      → IsClean plain (call ∷ calls)
      → b ≡ plain ++ (c ∷ os ++ r)
      → r ++ t ≡ (call.0 ++ close) ++ render call.1 calls
      → Ends b t plain (call ∷ calls)
  opened-Ends b t plain r call calls clean e h =
      elim (append-Split r t (call.0 ++ close) (render call.1 calls) h) [
        | Split.inside a rest e2 k ↦
            let gone = find_open call.0 r (a ∷ rest) e2 (omega arith) clean.1 in
            Ends.waits (c ∷ os ++ r) []
              (ap (turn (c ∷ os) close) e ∙ turn_open c os close plain clean.0 r gone)
              (append_assoc (c ∷ os) r t ∙ ap (λ x. c ∷ os ++ x) h)
              (IsClean-plain plain [] (call ∷ calls) clean tt)
              (no_more a rest (render call.1 calls) t (call ∷ calls) k)
        | Split.past w e2 k ↦
            let whole : b ≡ plain ++ (c ∷ os ++ ((call.0 ++ close) ++ w)) =
              e ∙ ap (λ x. plain ++ (c ∷ os ++ x)) e2 in
            let behind = IsPlain-IsClean call.1 calls clean.2 in
            Ends.yields call calls (plain ++ w) refl
              (ap (turn (c ∷ os) close) whole
                ∙ turn_closed c os close plain clean.0 call.0 w clean.1)
              (append_assoc plain w t
                ∙ ap (λ x. plain ++ x) k
                ∙ sym (render-append plain call.1 calls))
              (IsClean-plain call.1 (plain ++ call.1) calls clean.2
                (IsPlain-append (c ∷ os) plain call.1 clean.0 behind))
              (omega (
                arith,
                ap length whole,
                length-append plain (c ∷ os ++ ((call.0 ++ close) ++ w)),
                length-append (c ∷ os) ((call.0 ++ close) ++ w),
                length-append (call.0 ++ close) w,
                length-append plain w,
              ))
      ]

  pub turn-Ends :
      (b t plain : Text) (calls : List Call)
      → IsClean plain calls
      → b ++ t ≡ render plain calls
      → Ends b t plain calls
  turn-Ends b t plain [] clean h = lets_go b t plain t [] (sym h) refl clean (λ e. refl)
  turn-Ends b t plain (call ∷ calls) clean h =
      let inner = (call.0 ++ close) ++ render call.1 calls in
      elim (append-Split b t plain (c ∷ os ++ inner) h) [
        | Split.inside a rest e k ↦
            lets_go b t plain (a ∷ rest) (call ∷ calls) e k clean
              (no_more a rest (c ∷ os ++ inner) t (call ∷ calls) k)
        | Split.past w e k ↦ elim (append-Split w t (c ∷ os) inner k) [
          | Split.inside a rest e2 k2 ↦
              Ends.waits w []
                (ap (turn (c ∷ os) close) e ∙ turn_part c os close plain w a rest clean.0 e2) k
                (IsClean-plain plain [] (call ∷ calls) clean tt)
                (no_more a rest inner t (call ∷ calls) k2)
          | Split.past r e2 k2 ↦
              opened-Ends b t plain r call calls clean (e ∙ ap (λ x. plain ++ x) e2) k2
        ]
      ]
