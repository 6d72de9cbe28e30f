-- ===== src/Prelude/Dict.antt =====
-- `std::unordered_map` as an association list: the order of the entries means nothing.
use mathlib.Core.Path.{◌≡◌, refl}
use mathlib.Core.Logic.{◌≢◌}
use mathlib.Core.Bool.{Bool}
use mathlib.Core.List.{List, [], ◌∷◌}
use mathlib.Core.Option.{Option, none, some}
use native.Mathlib.Omega.{arith}
use Prim.Native.Nat.{◌≤◌}
use rev_dash.Prelude.Lists.{length}
use rev_dash.Prelude.Tests.{Eq, beq_self, beq_ne, if◌then◌else◌}

abbrev pub Dict {ℓ κ} : Type ℓ → Type κ → Type (ℓ ⊔ κ)
Dict K V = List (K × V)

-- An entry that the test does not take.
abbrev pub unless_taken {ℓ} : {V : Type ℓ} → (V → Bool) → Option V → Option V
unless_taken p none = none
unless_taken p (some v) = if p v then none else some v

module _ {ℓ κ} {K : Type ℓ} {V : Type κ} ⦃e : Eq K⦄ where
  unfoldable pub find : K → Dict K V → Option V
  find k [] = none
  find k ((j, v) ∷ d) = if e.beq j k then some v else find k d

  unfoldable pub erase : K → Dict K V → Dict K V
  erase k [] = []
  erase k ((j, v) ∷ d) = if e.beq j k then erase k d else (j, v) ∷ erase k d

  -- `insert_or_assign`
  unfoldable pub assign : K → V → Dict K V → Dict K V
  assign k v d = (k, v) ∷ erase k d

  -- What a read finds after the key `k` is erased.
  pub find-erase :
      (k j : K) (d : Dict K V) → find j (erase k d) ≡ (if e.beq k j then none else find j d)
  unfolding find erase
  find-erase k j [] = ground arith
  find-erase k j ((i, v) ∷ d) =
      ground (arith, e.beq_iff k j, e.beq_iff i k, e.beq_iff i j, find-erase k j d)

  -- What a read finds after a write.
  pub find-assign :
      (k j : K) (v : V) (d : Dict K V)
      → find j (assign k v d) ≡ (if e.beq k j then some v else find j d)
  unfolding find assign
  find-assign k j v d = ground (arith, find-erase k j d)

  pub find-assign_self : (k : K) (v : V) (d : Dict K V) → find k (assign k v d) ≡ some v
  find-assign_self k v d = rw (find-assign k k v d, beq_self k)

  pub find-erase_self : (k : K) (d : Dict K V) → find k (erase k d) ≡ none
  find-erase_self k d = rw (find-erase k k d, beq_self k)

  pub find-assign_ne : (k j : K) (v : V) (d : Dict K V) → k ≢ j → find j (assign k v d) ≡ find j d
  find-assign_ne k j v d h = rw (find-assign k j v d, beq_ne k j h)

  pub find-erase_ne : (k j : K) (d : Dict K V) → k ≢ j → find j (erase k d) ≡ find j d
  find-erase_ne k j d h = rw (find-erase k j d, beq_ne k j h)

  -- No key stands twice.
  abbrev pub IsUnique : Dict K V → Type κ
  IsUnique [] = Unit
  IsUnique ((k, v) ∷ d) = (find k d ≡ none) × IsUnique d

  pub erase-IsUnique : (k : K) (d : Dict K V) → IsUnique d → IsUnique (erase k d)
  unfolding erase
  erase-IsUnique k [] u = tt
  erase-IsUnique k ((j, v) ∷ d) u =
      ground (arith, find-erase k j d, erase-IsUnique k d u.1, e.beq_iff j k, e.beq_iff k j)

  pub assign-IsUnique : (k : K) (v : V) (d : Dict K V) → IsUnique d → IsUnique (assign k v d)
  unfolding assign
  assign-IsUnique k v d u = (find-erase_self k d, erase-IsUnique k d u)

  -- `std::erase_if`, by a test of the value
  unfoldable pub erase_if : (V → Bool) → Dict K V → Dict K V
  erase_if p [] = []
  erase_if p ((k, v) ∷ d) = if p v then erase_if p d else (k, v) ∷ erase_if p d

  pub find-erase_if :
      (p : V → Bool) (k : K) (d : Dict K V)
      → IsUnique d
      → find k (erase_if p d) ≡ unless_taken p (find k d)
  unfolding erase_if find
  find-erase_if p k [] u = refl
  find-erase_if p k ((j, v) ∷ d) u = ground (arith, e.beq_iff j k, find-erase_if p k d u.1)

  pub erase_if-IsUnique : (p : V → Bool) (d : Dict K V) → IsUnique d → IsUnique (erase_if p d)
  unfolding erase_if
  erase_if-IsUnique p [] u = tt
  erase_if-IsUnique p ((j, v) ∷ d) u =
      ground (arith, find-erase_if p j d u.1, erase_if-IsUnique p d u.1)

  pub length-erase_if : (p : V → Bool) (d : Dict K V) → length (erase_if p d) ≤ length d
  unfolding erase_if
  length-erase_if p [] = omega arith
  length-erase_if p ((j, v) ∷ d) = ground (arith, length-erase_if p d)
