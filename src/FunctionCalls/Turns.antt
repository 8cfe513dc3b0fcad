-- ===== src/FunctionCalls/Turns.antt =====
-- One turn of the parser's loop, on a buffer of a known shape.
use free_token_intel.Prelude.{
  ℕ, ◌+◌, ◌-◌, ◌≡◌, refl, sym, ap, ◌∙◌, true, ◌<◌, none, some, [], ◌∷◌, ◌++◌, append_assoc, arith,
  ltb, if◌then◌else◌, length, take, drop, length-append, drop-drop, inl, inr, Bool-cases,
  take-append-drop, append-nil,
}
use free_token_intel.Reasoning.{Text, find, trailing_partial}
use free_token_intel.FunctionCalls.{Turn, shift_by, turn_opened, turn_found, turn}
use free_token_intel.FunctionCalls.Markers.{
  IsPlain, find_plain_part, drop-append, take_append, find-append, find_part, find_whole,
  partial_part,
}

held-back :
    (plain part : Text) (keep : ℕ)
    → keep ≡ length part
    → (if ltb 0 keep then drop (length (plain ++ part) - keep) (plain ++ part) else []) ≡ part
held-back plain [] keep e = ground (arith, e)
held-back plain (y ∷ ys) keep e =
    let more : ltb 0 keep ≡ true = ground (arith, e) in
    let at : length (plain ++ y ∷ ys) - keep ≡ length plain =
      omega (arith, e, length-append plain (y ∷ ys)) in
    rw (more, at) (drop-append plain (y ∷ ys))

module _ (c : ℕ) (os close : Text) where
  -- Only a part of the opening marker, or none of it: what is before it is let go.
  pub turn_part :
      (plain part : Text) (a : ℕ) (rest : Text)
      → IsPlain (c ∷ os) plain
      → c ∷ os ≡ part ++ a ∷ rest
      → turn (c ∷ os) close (plain ++ part) ≡ Turn.breaks part
  unfolding turn
  turn_part plain part a rest none_in e =
      let short : length part < length (c ∷ os) =
        omega (arith, ap length e, length-append part (a ∷ rest)) in
      ap (turn_found (c ∷ os) close (plain ++ part)) (find_part c os plain part none_in short)
      ∙ ap (λ t. Turn.breaks t)
          (held-back plain part (trailing_partial (plain ++ part) (c ∷ os))
            (partial_part c os plain part a rest none_in e))

  -- Plain text: the end of it stays, as far as a marker could begin there.
  pub turn_plain :
      (b next : Text)
      → IsPlain (c ∷ os) (b ++ next)
      → (x left : Text) × (x ++ left ≡ b) × (turn (c ∷ os) close b ≡ Turn.breaks left)
  unfolding turn
  turn_plain b next h =
      let keep = trailing_partial b (c ∷ os) in
      let found = ap (turn_found (c ∷ os) close b) (find_plain_part c os b next h) in
      elim (Bool-cases (ltb 0 keep)) [
        | inl some_kept ↦ (
          take (length b - keep) b,
          drop (length b - keep) b,
          take-append-drop (length b - keep) b,
          found ∙ ap (λ q. Turn.breaks (if q then drop (length b - keep) b else [])) some_kept,
        )
        | inr none_kept ↦ (
          b,
          [],
          append-nil b,
          found ∙ ap (λ q. Turn.breaks (if q then drop (length b - keep) b else [])) none_kept,
        )
      ]

  module _ (plain : Text) (none_in : IsPlain (c ∷ os) plain) where
    abbrev body_from : ℕ
    body_from = length plain + length (c ∷ os)

    drop_opened : (r : Text) → drop body_from (plain ++ (c ∷ os ++ r)) ≡ r
    drop_opened r =
        sym (drop-drop (length (c ∷ os)) (length plain) body_from (plain ++ (c ∷ os ++ r)) refl)
        ∙ ap (drop (length (c ∷ os))) (drop-append plain (c ∷ os ++ r))
        ∙ drop-append (c ∷ os) r

    turn_is :
        (r : Text)
        → turn (c ∷ os) close (plain ++ (c ∷ os ++ r))
          ≡ turn_opened
              (c ∷ os)
              close
              (plain ++ (c ∷ os ++ r))
              (length plain)
              (shift_by body_from (find r close))
    unfolding turn
    turn_is r =
        ap (turn_found (c ∷ os) close (plain ++ (c ∷ os ++ r))) (find_whole c os plain r none_in)
        ∙ ap
            (λ t.
              turn_opened (c ∷ os) close (plain ++ (c ∷ os ++ r)) (length plain)
                (shift_by body_from (find t close)))
            (drop_opened r)

    -- Opened and not closed: the marker and what follows it stay.
    pub turn_open :
        (r : Text)
        → find r close ≡ none
        → turn (c ∷ os) close (plain ++ (c ∷ os ++ r)) ≡ Turn.breaks (c ∷ os ++ r)
    turn_open r h =
        turn_is r
        ∙ ap
            (λ o.
              turn_opened (c ∷ os) close (plain ++ (c ∷ os ++ r)) (length plain)
                (shift_by body_from o))
            h
        ∙ ap (λ t. Turn.breaks t) (drop-append plain (c ∷ os ++ r))

    -- Opened and closed: the body is taken out, and the text around it joined.
    pub turn_closed :
        (body w : Text)
        → find (body ++ close) close ≡ some (length body)
        → turn (c ∷ os) close (plain ++ (c ∷ os ++ ((body ++ close) ++ w)))
          ≡ Turn.extracts body (plain ++ w)
    turn_closed body w h =
        let r = (body ++ close) ++ w in
        let buffer = plain ++ (c ∷ os ++ r) in
        let found = find-append (body ++ close) close w (length body) h in
        let taken : take (body_from + length body - body_from) (drop body_from buffer) ≡ body =
          ap (λ n. take n (drop body_from buffer)) (omega arith)
          ∙ ap (take (length body)) (drop_opened r)
          ∙ ap (take (length body)) (append_assoc body close w)
          ∙ take_append body (close ++ w) in
        let behind : drop (body_from + length body + length close) buffer ≡ w =
          sym (
            drop-drop (length (body ++ close)) body_from (body_from + length body + length close)
              buffer (omega (arith, length-append body close)))
          ∙ ap (drop (length (body ++ close))) (drop_opened r)
          ∙ drop-append (body ++ close) w in
        turn_is r
        ∙ ap (λ o. turn_opened (c ∷ os) close buffer (length plain) (shift_by body_from o)) found
        ∙ (λ i. Turn.extracts (taken i) (take_append plain (c ∷ os ++ r) i ++ behind i))
