-- ===== src/Prelude/Dict.antt =====
-- A Python dict with integer keys: its entries in insertion order.
use Prim.Native.Nat.{ℕ}
use mathlib.Core.List.{List, [], ◌∷◌}
use mathlib.Core.Option.{Option, none, some}
use mathlib.Core.Bool.{Bool, true, false}
use mathlib.Core.Path.{◌≡◌, refl}
use native.Mathlib.Omega.{arith}
use free_token_intel.Prelude.Tests.{if◌then◌else◌, ◌==◌}

abbrev pub Dict {ℓ} : Type ℓ → Type ℓ
Dict V = List (ℕ × V)

module _ {ℓ} {V : Type ℓ} where
  -- `d.get(k)`
  unfoldable pub lookup : ℕ → Dict V → Option V
  lookup k [] = none
  lookup k ((j, v) ∷ d) = if j == k then some v else lookup k d

  -- `k in d`
  unfoldable pub contains : ℕ → Dict V → Bool
  contains k [] = false
  contains k ((j, v) ∷ d) = if j == k then true else contains k d

  -- `d[k] = v`: in place if the key is there, else at the end.
  unfoldable pub store : ℕ → V → Dict V → Dict V
  store k v [] = (k, v) ∷ []
  store k v ((j, w) ∷ d) = if j == k then (k, v) ∷ d else (j, w) ∷ store k v d

  -- `del d[k]`, `d.pop(k, None)`: a missing key changes nothing.
  unfoldable pub delete : ℕ → Dict V → Dict V
  delete k [] = []
  delete k ((j, w) ∷ d) = if j == k then d else (j, w) ∷ delete k d

  pub lookup-store :
      (k j : ℕ) (v : V) (d : Dict V)
      → lookup j (store k v d) ≡ (if k == j then some v else lookup j d)
  unfolding lookup store
  lookup-store k j v [] = refl
  lookup-store k j v ((i, w) ∷ d) = ground (arith, lookup-store k j v d)

  pub lookup-delete_ne :
      (k j : ℕ) (d : Dict V) → (k == j) ≡ false → lookup j (delete k d) ≡ lookup j d
  unfolding lookup delete
  lookup-delete_ne k j [] h = refl
  lookup-delete_ne k j ((i, w) ∷ d) h = ground (arith, lookup-delete_ne k j d)

  pub contains-lookup :
      (k : ℕ) (d : Dict V) → contains k d ≡ (elim (lookup k d) [ none ↦ false | some _ ↦ true ])
  unfolding lookup contains
  contains-lookup k [] = refl
  contains-lookup k ((j, v) ∷ d) = ground (arith, contains-lookup k d)

-- The keys of a dict are distinct.
abbrev pub Fresh {ℓ} : {V : Type ℓ} → ℕ → Dict V → Type ℓ
Fresh k d = lookup k d ≡ none

abbrev pub KeysDistinct {ℓ} : {V : Type ℓ} → Dict V → Type ℓ
KeysDistinct [] = Unit
KeysDistinct ((k, v) ∷ d) = Fresh k d × KeysDistinct d

module _ {ℓ} {V : Type ℓ} where
  pub store-KeysDistinct :
      (k : ℕ) (v : V) (d : Dict V) → KeysDistinct d → KeysDistinct (store k v d)
  unfolding lookup store
  store-KeysDistinct k v [] h = (refl, tt)
  store-KeysDistinct k v ((j, w) ∷ d) h =
      ground (arith, store-KeysDistinct k v d h.1, lookup-store k j v d)

  Fresh-delete : (k j : ℕ) (d : Dict V) → Fresh j d → Fresh j (delete k d)
  unfolding lookup delete
  Fresh-delete k j [] h = refl
  Fresh-delete k j ((i, w) ∷ d) h = ground (arith, Fresh-delete k j d)

  pub delete-KeysDistinct : (k : ℕ) (d : Dict V) → KeysDistinct d → KeysDistinct (delete k d)
  unfolding delete
  delete-KeysDistinct k [] h = tt
  delete-KeysDistinct k ((j, w) ∷ d) h =
      ground (arith, delete-KeysDistinct k d h.1, Fresh-delete k j d h.0)

  pub lookup-delete_self : (k : ℕ) (d : Dict V) → KeysDistinct d → lookup k (delete k d) ≡ none
  unfolding lookup delete
  lookup-delete_self k [] h = refl
  lookup-delete_self k ((j, w) ∷ d) h = ground (arith, lookup-delete_self k d h.1)
