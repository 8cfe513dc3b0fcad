-- ===== src/Offload/Loop.antt =====
-- The loop over the misses of one layer.
use free_token_intel.Prelude.{
  ℕ, ◌+◌, ◌*◌, ◌≤◌, ◌<◌, ◌≡◌, refl, ap, subst, ◌∙◌, ◌≢◌, inl, inr, Bool, true, Option, none, some,
  List, [], ◌∷◌, arith, ltb, ◌==◌, Bool-cases, ==_iff, runtime_error, Result, ok, ◌>>◌, guard,
  length, length-append, count, IsDistinct,
}
use free_token_intel.Offload.{Staging, victim, place, stage_misses, stamp, stamp_hits}
use free_token_intel.Offload.Inverse.{Written, put-Written, put_here}
use free_token_intel.Offload.Victim.{stamped, stamped-put, victim-IsVictim}
use free_token_intel.Offload.Placing.{
  IsStaging, IsFresh, IsMirror, id-lt, place-IsStaging, place_kept, place_new, place-none,
  place-IsMirror,
}

-- What the loop needs: a slot for each miss that is not stamped, and room for it in the plan.
pub record CanStage (S E layer L step plan_slots : ℕ) (g : Staging) (missing : List ℕ)
    : Type 0 where
  pub sound : IsStaging S (L * E) step g
  pub distinct : IsDistinct missing
  pub experts : (e : ℕ) → 0 < count e missing → e < E
  pub absent : (e : ℕ) → 0 < count e missing → g.slot_for_id (layer * E + e) ≡ none
  pub slots : stamped g.usage step S + length missing ≤ S
  pub room : length g.plan + length missing ≤ plan_slots

module _ (Row : Type 0) (S E layer L step : ℕ) (known : layer < L) where
  -- What the loop does from a state `g` on.
  pub record Staged (g : Staging) (missing : List ℕ) (r : Result Staging) : Type 0 where
    pub out : Staging
    pub runs : r ≡ ok out
    pub sound : IsStaging S (L * E) step out
    pub kept : (id s : ℕ) → IsFresh step g id s → IsFresh step out id s
    pub resident : (e : ℕ) → 0 < count e missing → (s : ℕ) × IsFresh step out (layer * E + e) s
    pub mirror :
        (host : ℕ → ℕ → Row) (cache : ℕ → Row)
        → IsMirror E host layer g cache
        → IsMirror E host layer out cache
    pub planned : length out.plan ≡ length g.plan + length missing

  stage_next :
      (whole : Bool) (plan_slots e : ℕ) (es : List ℕ) (g : Staging)
      → length g.plan < plan_slots
      → stage_misses whole S (layer * E) step plan_slots (e ∷ es) g
        ≡ stage_misses whole S
            (layer * E)
            step
            plan_slots
            es
            (place (layer * E) step e (victim whole S g) g)
  unfolding stage_misses
  stage_next whole plan_slots e es g h =
      let room : ltb (length g.plan) plan_slots ≡ true = ground (arith, h) in
      ap
        (λ b.
          guard b runtime_error
          >> stage_misses whole S (layer * E) step plan_slots es
              (place (layer * E) step e (victim whole S g) g))
        room

  pub stage_misses-Staged :
      (whole : Bool) (plan_slots : ℕ) (missing : List ℕ) (g : Staging)
      → CanStage S E layer L step plan_slots g missing
      → Staged g missing (stage_misses whole S (layer * E) step plan_slots missing g)
  unfolding stage_misses place count
  stage_misses-Staged whole plan_slots [] g v = record {
    out = g;
    runs = refl;
    sound = v.sound;
    kept = λ id s f. f;
    resident = λ e h. absurd (omega (arith, h));
    mirror = λ host cache m. m;
    planned = omega arith;
  }
  stage_misses-Staged whole plan_slots (e ∷ es) g v =
      let slot = victim whole S g in
      let pick = victim-IsVictim whole S step g v.sound.old (omega (arith, v.slots)) in
      let here : 0 < count e (e ∷ es) = ground arith in
      let expert = v.experts e here in
      let is_id = id-lt layer E e L expert known in
      let gone = v.absent e here in
      let next = place (layer * E) step e slot g in
      let later : (x : ℕ) → 0 < count x es → x ≢ e =
        λ x h same. ground (arith, v.distinct x, h, same) in
      let more : CanStage S E layer L step plan_slots next es = record {
        sound = place-IsStaging S E layer (L * E) step g v.sound e slot pick expert is_id gone;
        distinct = λ x. omega (arith, v.distinct x);
        experts = λ x h. v.experts x (omega (arith, h));
        absent = λ x h.
            place-none S E layer (L * E) step g v.sound e slot pick expert is_id gone
              (layer * E + x) (v.absent x (omega (arith, h)))
              (λ same. later x h (omega (arith, same)));
        slots = omega (arith, v.slots, stamped-put g.usage step slot S);
        room = omega (arith, v.room, length-append g.plan ((slot, e) ∷ []));
      } in
      let rest = stage_misses-Staged whole plan_slots es next more in
      record {
        out = rest.out;
        runs = stage_next whole plan_slots e es g (omega (arith, v.room)) ∙ rest.runs;
        sound = rest.sound;
        kept = λ id s f.
            rest.kept id s
              (place_kept S E layer (L * E) step g v.sound e slot pick expert is_id gone id s f);
        resident = λ x h. elim (Bool-cases (e == x)) [
          | inl same ↦
              let new =
                rest.kept (layer * E + e) slot
                  (place_new S E layer (L * E) step g v.sound e slot pick expert is_id gone) in
              (
                slot,
                subst (λ y. IsFresh step rest.out (layer * E + y) slot) ((==_iff e x).0 same) new,
              )
          | inr other ↦ rest.resident x (ground (arith, other, h))
        ];
        mirror = λ host cache m. rest.mirror host cache (
            place-IsMirror S E layer (L * E) step g v.sound e slot pick expert is_id gone host cache
              m);
        planned = omega (arith, rest.planned, length-append g.plan ((slot, e) ∷ []));
      }

-- The slot of a hit is used in this step, and the others as before or in this step.
pub stamp_hits-old :
    (rows : ℕ → Option ℕ) (base step : ℕ) (es : List ℕ) (usage : ℕ → ℕ)
    → ((s : ℕ) → usage s ≤ step)
    → (s : ℕ) → stamp_hits rows base step es usage s ≤ step
unfolding stamp_hits
stamp_hits-old rows base step [] usage h s = h s
stamp_hits-old rows base step (e ∷ es) usage h s =
    stamp_hits-old rows base step es (stamp step (rows (base + e)) usage)
      (stamp_old (rows (base + e))) s
  where
    stamp_old : (o : Option ℕ) (t : ℕ) → stamp step o usage t ≤ step
    stamp_old none t = h t
    stamp_old (some slot) t = elim (put-Written usage slot step t) [
      | Written.written same w ↦ omega (arith, w)
      | Written.kept other w ↦ omega (arith, w, h t)
    ]

stamp_again :
    (o : Option ℕ) (step : ℕ) (usage : ℕ → ℕ) (s : ℕ) → usage s ≡ step → stamp step o usage s ≡ step
stamp_again none step usage s h = h
stamp_again (some slot) step usage s h = elim (put-Written usage slot step s) [
  | Written.written same w ↦ w
  | Written.kept other w ↦ w ∙ h
]

stamp_hits_again :
    (rows : ℕ → Option ℕ) (base step : ℕ) (es : List ℕ) (usage : ℕ → ℕ) (s : ℕ)
    → usage s ≡ step
    → stamp_hits rows base step es usage s ≡ step
unfolding stamp_hits
stamp_hits_again rows base step [] usage s h = h
stamp_hits_again rows base step (e ∷ es) usage s h =
    stamp_hits_again rows base step es (stamp step (rows (base + e)) usage) s
      (stamp_again (rows (base + e)) step usage s h)

pub stamp_hits_hit :
    (rows : ℕ → Option ℕ) (base step : ℕ) (es : List ℕ) (usage : ℕ → ℕ) (e s : ℕ)
    → 0 < count e es
    → rows (base + e) ≡ some s
    → stamp_hits rows base step es usage s ≡ step
unfolding stamp_hits count
stamp_hits_hit rows base step [] usage e s h r = absurd (omega (arith, h))
stamp_hits_hit rows base step (x ∷ es) usage e s h r = elim (Bool-cases (x == e)) [
  | inl same ↦
      let here : rows (base + x) ≡ some s = ap (λ y. rows (base + y)) ((==_iff x e).0 same) ∙ r in
      stamp_hits_again rows base step es (stamp step (rows (base + x)) usage) s
        (ap (λ o. stamp step o usage s) here ∙ put_here usage s step)
  | inr other ↦
      stamp_hits_hit rows base step es (stamp step (rows (base + x)) usage) e s
        (ground (arith, other, h)) r
]
