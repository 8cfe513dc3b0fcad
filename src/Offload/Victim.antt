-- ===== src/Offload/Victim.antt =====
-- The slot that a miss takes, and how many slots a step has stamped.
use free_token_intel.Prelude.{
  ℕ, zero, suc, ◌+◌, ◌≤◌, ◌<◌, ◌≡◌, refl, sym, ap, ◌∙◌, ◌≢◌, ◌⊎◌, inl, inr, Bool, true, false, not,
  Option, none, some, List, [], ◌∷◌, arith, ltb, ◌==◌, if◌then◌else◌, Bool-cases, Option-cases,
  ==_iff, length, select,
}
use free_token_intel.Offload.{put, is_none, lru_slot, first_free, Staging, victim, stamp_hits}
use free_token_intel.Offload.Inverse.{Written, put-Written}

-- How many of the first slots were last used in this step.
unfoldable pub stamped : (ℕ → ℕ) → ℕ → ℕ → ℕ
stamped usage step zero = 0
stamped usage step (suc n) = (if usage n == step then 1 else 0) + stamped usage step n

stamped-le : (usage : ℕ → ℕ) (step n : ℕ) → stamped usage step n ≤ n
unfolding stamped
stamped-le usage step zero = omega arith
stamped-le usage step (suc n) = ground (arith, stamped-le usage step n)

-- A write changes the number by one at most, and one behind the slots does not change it.
stamped-put_behind :
    (usage : ℕ → ℕ) (step slot n : ℕ)
    → n ≤ slot
    → stamped (put usage slot step) step n ≡ stamped usage step n
unfolding stamped
stamped-put_behind usage step slot zero h = refl
stamped-put_behind usage step slot (suc n) h = elim (put-Written usage slot step n) [
  | Written.written e w ↦ absurd (omega (arith, e, h))
  | Written.kept other w ↦ rw (w, stamped-put_behind usage step slot n (omega (arith, h))) refl
]

pub stamped-put :
    (usage : ℕ → ℕ) (step slot n : ℕ)
    → stamped (put usage slot step) step n ≤ 1 + stamped usage step n
unfolding stamped
stamped-put usage step slot zero = omega arith
stamped-put usage step slot (suc n) = elim (put-Written usage slot step n) [
  | Written.written e w ↦ ground (arith, stamped-put_behind usage step slot n (omega (arith, e)), w)
  | Written.kept other w ↦ rw w (omega (arith, stamped-put usage step slot n))
]

pub stamped-zero :
    (usage : ℕ → ℕ) (step n : ℕ) → ((s : ℕ) → usage s < step) → stamped usage step n ≡ 0
unfolding stamped
stamped-zero usage step zero h = refl
stamped-zero usage step (suc n) h = ground (arith, h n, stamped-zero usage step n h)

pub stamp_hits-stamped :
    (rows : ℕ → Option ℕ) (base step : ℕ) (es : List ℕ) (usage : ℕ → ℕ) (n : ℕ)
    → stamped (stamp_hits rows base step es usage) step n
      ≤ length (select (λ e. not (is_none (rows (base + e)))) es) + stamped usage step n
unfolding stamp_hits
stamp_hits-stamped rows base step [] usage n = omega arith
stamp_hits-stamped rows base step (e ∷ es) usage n = elim (Option-cases (rows (base + e))) [
  | inl miss ↦ rw miss (stamp_hits-stamped rows base step es usage n)
  | inr (s, hit) ↦ rw hit (
      omega (
        arith,
        stamp_hits-stamped rows base step es (put usage s step) n,
        stamped-put usage step s n,
      ))
]

-- A slot that is not stamped, as long as there are fewer stamped ones than slots.
some_unstamped :
    (usage : ℕ → ℕ) (step n : ℕ) → stamped usage step n < n → (s : ℕ) × (s < n) × (usage s ≢ step)
unfolding stamped
some_unstamped usage step zero h = absurd (omega (arith, h))
some_unstamped usage step (suc n) h = elim (Bool-cases (usage n == step)) [
  | inl used ↦
      let (s, lt, other) = some_unstamped usage step n (ground (arith, used, h)) in
      (s, omega (arith, lt), other)
  | inr free ↦ (n, omega arith, ground (arith, free))
]

-- The least recently used slot.
pub lru_slot-least :
    (usage : ℕ → ℕ) (n : ℕ)
    → 0 < n
    → (lru_slot usage n < n) × ((s : ℕ) → s < n → usage (lru_slot usage n) ≤ usage s)
unfolding lru_slot
lru_slot-least usage zero h = absurd (omega (arith, h))
lru_slot-least usage (suc zero) h =
    (omega arith, λ s lt. let e : s ≡ 0 = omega (arith, lt) in omega (arith, ap usage e))
lru_slot-least usage (suc (suc n)) h =
    let best = lru_slot usage (suc n) in
    let (low, least) = lru_slot-least usage (suc n) (omega arith) in
    elim (Bool-cases (ltb (usage (suc n)) (usage best))) [
      | inl newer ↦ rw newer (
        omega arith,
        λ s lt. elim (Bool-cases (s == suc n)) [
          | inl last ↦ omega (arith, ap usage ((==_iff s (suc n)).0 last))
          | inr other ↦ ground (arith, newer, least s (ground (arith, lt, other)))
        ],
      )
      | inr older ↦ rw older (
        omega (arith, low),
        λ s lt. elim (Bool-cases (s == suc n)) [
          | inl last ↦ ground (arith, older, ap usage ((==_iff s (suc n)).0 last))
          | inr other ↦ least s (ground (arith, lt, other))
        ],
      )
    ]

-- A victim is a slot of the pool that holds nothing or was not used in this step.
pub record IsVictim (S step : ℕ) (g : Staging) (slot : ℕ) : Type 0 where
  pub in_pool : slot < S
  pub unused : (g.id_of_slot slot ≡ none) ⊎ (g.usage slot < step)

lru-IsVictim :
    (S step : ℕ) (g : Staging)
    → ((s : ℕ) → g.usage s ≤ step)
    → stamped g.usage step S < S
    → IsVictim S step g (lru_slot g.usage S)
lru-IsVictim S step g old room =
    let (s, lt, other) = some_unstamped g.usage step S room in
    let (low, least) = lru_slot-least g.usage S (omega (arith, lt)) in
    record { in_pool = low; unused = inr (ground (arith, least s lt, old s, other)) }

first_free-empty :
    (ids : ℕ → Option ℕ) (n s : ℕ) → first_free ids n ≡ some s → (s < n) × (ids s ≡ none)
unfolding first_free
first_free-empty ids zero s h = absurd (ground (arith, h))
first_free-empty ids (suc n) s h = elim (Option-cases (first_free ids n)) [
  | inr (t, found) ↦
      let e : t ≡ s = ground (arith, found, h) in
      let (low, empty) = first_free-empty ids n s (found ∙ ap (λ x. some x) e) in
      (omega (arith, low), empty)
  | inl nothing ↦ elim (Option-cases (ids n)) [
    | inl empty ↦
        let e : n ≡ s = ground (arith, nothing, empty, h) in
        (omega (arith, e), ap ids (sym e) ∙ empty)
    | inr (i, full) ↦ absurd (ground (arith, nothing, full, h))
  ]
]

pub victim-IsVictim :
    (whole : Bool) (S step : ℕ) (g : Staging)
    → ((s : ℕ) → g.usage s ≤ step)
    → stamped g.usage step S < S
    → IsVictim S step g (victim whole S g)
unfolding victim
victim-IsVictim false S step g old room = lru-IsVictim S step g old room
victim-IsVictim true S step g old room = elim (Option-cases (first_free g.id_of_slot S)) [
  | inl full ↦ rw full (lru-IsVictim S step g old room)
  | inr (s, found) ↦
      let (low, empty) = first_free-empty g.id_of_slot S s found in
      rw found (record { in_pool = low; unused = inl empty })
]
