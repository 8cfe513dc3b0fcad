-- ===== src/Offload/Fetch.antt =====
-- `ensure_experts` and `materialize_layer`, followed by `copy_missing`.
use free_token_intel.Prelude.{
  ℕ, ◌+◌, ◌*◌, ◌/◌, ◌%◌, ◌≤◌, ◌<◌, ◌≡◌, refl, sym, ap, subst, ◌∙◌, inl, inr, Bool, true, false,
  Option, none, some, List, [], ◌∷◌, map, arith, Option-cases, Result, ok, ◌>>=◌, length, count,
  SameItems, IsDistinct,
}
use free_token_intel.Offload.{
  Bank, OffloadMoeCache, is_none, Staging, stage_misses, with_staging, staging_of, load, misses,
  has_banks, copy_rows, copy_bank, copy_missing, resync_slot_for_id, mark_active,
}
use free_token_intel.Offload.Inverse.{IsInverse, resync_same}
use free_token_intel.Offload.Victim.{stamped-zero, stamp_hits-stamped}
use free_token_intel.Offload.Loop.{
  Staged, CanStage, stage_misses-Staged, stamp_hits-old, stamp_hits_hit,
}
use free_token_intel.Offload.Experts.{
  select-passes, select-has, select-IsDistinct, select-split, length-IsDistinct,
}

module _ {Row : Type 0} where
  -- Every slot of a bank that holds an expert holds that expert's row.
  abbrev pub Holds : ℕ → (ℕ → Option ℕ) → List (Bank Row) → Type 0
  Holds E ids [] = Unit
  Holds E ids (b ∷ bs) =
      ((s id : ℕ) → ids s ≡ some id → b.cache s ≡ b.sources (id / E) (id % E)) × Holds E ids bs

  -- A pool between two forward passes.
  pub record IsPool (c : OffloadMoeCache Row) : Type 0 where
    pub fits : c.num_experts ≤ c.cache_size
    pub room : c.num_experts ≤ c.plan_slots
    pub inverse : IsInverse c.cache_size (c.num_layers * c.num_experts) c.slot_for_id c.id_of_slot
    pub old : (s : ℕ) → c.usage s ≤ c.step
    pub idle : c.pending_src_layer ≡ none
    pub holds : Holds c.num_experts c.id_of_slot c.banks

  -- What a layer's experts `seen` have once they are fetched.
  pub record Fetched (c : OffloadMoeCache Row) (layer_id : ℕ) (seen : List ℕ)
      (r : Result (OffloadMoeCache Row)) : Type 0 where
    pub out : OffloadMoeCache Row
    pub runs : r ≡ ok out
    pub pool : IsPool out
    pub resident :
        (e : ℕ)
        → 0 < count e seen
        → (s : ℕ) × (out.slot_for_id (layer_id * c.num_experts + e) ≡ some s)
    pub hits :
        (e s : ℕ)
        → 0 < count e seen
        → c.slot_for_id (layer_id * c.num_experts + e) ≡ some s
        → out.slot_for_id (layer_id * c.num_experts + e) ≡ some s
    pub misses : out.stat_missing ≡ c.stat_missing + length (misses c layer_id seen)
    pub same_size :
        (out.cache_size ≡ c.cache_size)
        × (out.num_experts ≡ c.num_experts)
        × (out.num_layers ≡ c.num_layers)

  -- The bank's copies, from those of one bank.
  Holds-copy :
      (E layer : ℕ) (ids ids' : ℕ → Option ℕ) (plan : List (ℕ × ℕ)) (bs : List (Bank Row))
      → ((host : ℕ → ℕ → Row) (cache : ℕ → Row)
          → ((s id : ℕ) → ids s ≡ some id → cache s ≡ host (id / E) (id % E))
          → (s id : ℕ) → ids' s ≡ some id
          → copy_rows (host layer) plan cache s ≡ host (id / E) (id % E))
      → Holds E ids bs
      → Holds E ids' (map (copy_bank layer plan) bs)
  Holds-copy E layer ids ids' plan [] one h = tt
  Holds-copy E layer ids ids' plan (b ∷ bs) one h =
      (one b.sources b.cache h.0, Holds-copy E layer ids ids' plan bs one h.1)

  module _ (c : OffloadMoeCache Row) (v : IsPool c) (layer : ℕ) (known : layer < c.num_layers)
      (whole : Bool) (seen missing : List ℕ) (distinct : IsDistinct seen)
      (experts : (e : ℕ) → 0 < count e seen → e < c.num_experts)
      (order : SameItems missing (misses c layer seen))
      (amount : length missing ≡ length (misses c layer seen)) where
    abbrev start : Staging
    start = staging_of c (layer * c.num_experts) (c.step + 1) seen

    abbrev is_missing : ℕ → Bool
    is_missing e = is_none (c.slot_for_id (layer * c.num_experts + e))

    none_of : (o : Option ℕ) → is_none o ≡ true → o ≡ none
    none_of none h = refl
    none_of (some x) h = absurd (ground arith)

    can_stage :
        CanStage c.cache_size c.num_experts layer c.num_layers
          (c.step + 1)
          c.plan_slots
          start
          missing
    unfolding misses
    can_stage =
        let E = c.num_experts in
        let few = length-IsDistinct E seen distinct experts in
        let parts = select-split is_missing seen in
        let hits =
          stamp_hits-stamped c.slot_for_id (layer * E) (c.step + 1) seen c.usage c.cache_size in
        let before = stamped-zero c.usage (c.step + 1) c.cache_size (λ s. omega (arith, v.old s)) in
        let one = select-IsDistinct is_missing seen distinct in
        let chosen : (e : ℕ) → 0 < count e missing → (is_missing e ≡ true) × (0 < count e seen) =
          λ e h. select-passes is_missing e seen (omega (arith, order e, h)) in
        record {
          sound = record {
            inverse = v.inverse;
            old =
                stamp_hits-old c.slot_for_id (layer * E) (c.step + 1) seen c.usage
                  (λ s. omega (arith, v.old s));
          };
          distinct = λ e. omega (arith, one e, order e);
          experts = λ e h. experts e (chosen e h).1;
          absent = λ e h. none_of (c.slot_for_id (layer * E + e)) (chosen e h).0;
          slots = omega (arith, few, parts, hits, before, amount, v.fits);
          room = omega (arith, few, parts, amount, v.room);
        }

    staged :
        Staged Row c.cache_size c.num_experts layer c.num_layers (c.step + 1) known start missing (
          stage_misses whole c.cache_size
            (layer * c.num_experts)
            (c.step + 1)
            c.plan_slots
            missing
            start)
    staged =
        stage_misses-Staged Row c.cache_size c.num_experts layer c.num_layers (c.step + 1) known
          whole c.plan_slots missing start can_stage

    abbrev bumped : OffloadMoeCache Row
    bumped = record c { step = c.step + 1; active_mask = mark_active seen }

    abbrev loaded : OffloadMoeCache Row
    loaded = with_staging bumped layer whole (length missing) staged.out

    load_runs : load c layer whole seen missing ≡ ok loaded
    unfolding load
    load_runs =
        ap (λ r. r >>= (λ g. ok (with_staging bumped layer whole (length missing) g))) staged.runs

    abbrev copied : OffloadMoeCache Row
    copied = record loaded {
      banks = map (copy_bank layer staged.out.plan) c.banks;
      pending_src_layer = none;
      pending_whole_layer = false;
    }

    copy_runs : has_banks c.banks ≡ true → copy_missing loaded ≡ ok copied
    unfolding copy_missing
    copy_runs some_bank = rw some_bank refl

    same_rows : copied.slot_for_id ≡ staged.out.slot_for_id
    same_rows =
        resync_same c.cache_size (c.num_layers * c.num_experts) c.num_experts staged.out.slot_for_id
          staged.out.id_of_slot staged.sound.inverse

    -- The rows are rebuilt as the staging has left them.
    pub staged-resync :
        (g : Staging) × (stage_misses whole c.cache_size
            (layer * c.num_experts)
            (c.step + 1)
            c.plan_slots
            missing
            start
          ≡ ok g)
        × (resync_slot_for_id c.num_experts g.id_of_slot c.cache_size ≡ g.slot_for_id)
    staged-resync = (staged.out, staged.runs, same_rows)

    fresh_hit :
        (e s : ℕ)
        → 0 < count e seen
        → c.slot_for_id (layer * c.num_experts + e) ≡ some s
        → staged.out.slot_for_id (layer * c.num_experts + e) ≡ some s
    fresh_hit e s h found =
        (staged.kept (layer * c.num_experts + e) s (
          found,
          stamp_hits_hit c.slot_for_id (layer * c.num_experts) (c.step + 1) seen c.usage e s h
              found,
        )).0

    in_slot :
        (e : ℕ)
        → 0 < count e seen
        → (s : ℕ) × (copied.slot_for_id (layer * c.num_experts + e) ≡ some s)
    unfolding misses
    in_slot e h = elim (Option-cases (c.slot_for_id (layer * c.num_experts + e))) [
      | inr (s, found) ↦
          (s, ap (λ f. f (layer * c.num_experts + e)) same_rows ∙ fresh_hit e s h found)
      | inl gone ↦
          let chosen = select-has is_missing e seen (ap is_none gone) h in
          let (s, fresh) = staged.resident e (omega (arith, order e, chosen)) in
          (s, ap (λ f. f (layer * c.num_experts + e)) same_rows ∙ fresh.0)
    ]

    pub load-Fetched :
        has_banks c.banks ≡ true
        → Fetched c layer seen (load c layer whole seen missing >>= copy_missing)
    unfolding copy_rows
    load-Fetched some_bank = record {
      out = copied;
      runs = ap (λ r. r >>= copy_missing) load_runs ∙ copy_runs some_bank;
      pool = record {
        fits = v.fits;
        room = v.room;
        inverse =
            subst
              (λ f. IsInverse c.cache_size (c.num_layers * c.num_experts) f staged.out.id_of_slot)
              (sym same_rows) staged.sound.inverse;
        old = staged.sound.old;
        idle = refl;
        holds =
            Holds-copy c.num_experts layer c.id_of_slot staged.out.id_of_slot staged.out.plan
              c.banks (λ host cache m. staged.mirror host cache m) v.holds;
      };
      resident = in_slot;
      hits =
          λ e s h found. ap (λ f. f (layer * c.num_experts + e)) same_rows ∙ fresh_hit e s h found;
      misses = omega (arith, amount);
      same_size = (refl, refl, refl);
    }
