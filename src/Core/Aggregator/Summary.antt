-- ===== src/Core/Aggregator/Summary.antt =====
-- headers/revdash/core/metric_aggregator.hpp: what the statistics of samples are.
use rev_dash.Prelude.{
  ℕ, zero, suc, ◌+◌, ◌-◌, ◌<◌, ◌≡◌, refl, ap, ◌∙◌, ◌⊎◌, inl, inr, Bool, true, false, some, List, [],
  ◌∷◌, map, All, arith, if◌then◌else◌, length, get_or, Bool-cases,
}
use rev_dash.Core.Float.{Float}
use rev_dash.Core.Telemetry.{TelemetrySample}
use rev_dash.Core.Aggregator.{MetricStatistics, insert_value, sort_values, summary}

module _ {F : Type 0} where
  -- The value is one of the list.
  abbrev pub Has : List F → F → Type 0
  Has [] x = ⊥
  Has (y ∷ ys) x = (y ≡ x) ⊎ Has ys x

  abbrev pub values_of : List (TelemetrySample F) → List F
  values_of ss = map (λ s. s.value) ss

module _ {F : Type 0} (fl : Float F) where
  abbrev pub NotBelow : F → F → Type 0
  NotBelow x y = fl.lt y x ≡ false

  -- The least and the greatest of the values, and their number.
  pub record Describes (xs : List F) (st : MetricStatistics F) : Type 0 where
    pub minimum_taken : Has xs st.minimum
    pub minimum_least : All (NotBelow st.minimum) xs
    pub maximum_taken : Has xs st.maximum
    pub maximum_greatest : All (λ x. NotBelow x st.maximum) xs
    pub count : st.count ≡ length xs

module _ {F : Type 0} (fl : Float F)
    -- `<` of the values, none of which is a NaN, is a strict weak order.
    (asym : (x y : F) → fl.lt x y ≡ true → fl.lt y x ≡ false)
    (trans : (x y z : F) → fl.lt y x ≡ false → fl.lt z y ≡ false → fl.lt z x ≡ false) where
  abbrev Ascends : List F → Type 0
  Ascends [] = Unit
  Ascends (x ∷ xs) = All (NotBelow fl x) xs × Ascends xs

  NotBelow-self : (x : F) → NotBelow fl x x
  NotBelow-self x = elim (Bool-cases (fl.lt x x)) [ inl y ↦ asym x x y | inr n ↦ n ]

  insert_value-All :
      (P : F → Type 0) (x : F) (ys : List F) → P x → All P ys → All P (insert_value fl x ys)
  unfolding insert_value
  insert_value-All P x [] p h = (p, tt)
  insert_value-All P x (y ∷ ys) p h = go (fl.lt x y) (insert_value-All P x ys p h.1)
    where
      go :
          (b : Bool)
          → All P (insert_value fl x ys)
          → All P (if b then x ∷ y ∷ ys else y ∷ insert_value fl x ys)
      go true r = (p, h)
      go false r = (h.0, r)

  All-weaken :
      (x y : F) (zs : List F) → NotBelow fl x y → All (NotBelow fl y) zs → All (NotBelow fl x) zs
  All-weaken x y [] h k = tt
  All-weaken x y (z ∷ zs) h k = (trans x y z h k.0, All-weaken x y zs h k.1)

  insert_value-Ascends : (x : F) (ys : List F) → Ascends ys → Ascends (insert_value fl x ys)
  unfolding insert_value
  insert_value-Ascends x [] h = (tt, tt)
  insert_value-Ascends x (y ∷ ys) h = go (fl.lt x y) refl (insert_value-Ascends x ys h.1)
    where
      go :
          (b : Bool)
          → fl.lt x y ≡ b
          → Ascends (insert_value fl x ys)
          → Ascends (if b then x ∷ y ∷ ys else y ∷ insert_value fl x ys)
      go true e r = ((asym x y e, All-weaken x y ys (asym x y e) h.0), h)
      go false e r = (insert_value-All (NotBelow fl y) x ys e h.0, r)

  -- What holds of every value of the longer list holds of the inserted one and of the others.
  All-insert_value :
      (P : F → Type 0) (x : F) (ys : List F) → All P (insert_value fl x ys) → P x × All P ys
  unfolding insert_value
  All-insert_value P x [] h = h
  All-insert_value P x (y ∷ ys) h = go (fl.lt x y) (All-insert_value P x ys) h
    where
      go :
          (b : Bool)
          → (All P (insert_value fl x ys) → P x × All P ys)
          → All P (if b then x ∷ y ∷ ys else y ∷ insert_value fl x ys)
          → P x × All P (y ∷ ys)
      go true r k = k
      go false r k = let rest = r k.1 in (rest.0, (k.0, rest.1))

  length-insert_value : (x : F) (ys : List F) → length (insert_value fl x ys) ≡ suc (length ys)
  unfolding insert_value
  length-insert_value x [] = refl
  length-insert_value x (y ∷ ys) = ground (arith, length-insert_value x ys)

  sort_values-Ascends : (xs ys : List F) → Ascends ys → Ascends (sort_values fl xs ys)
  unfolding sort_values
  sort_values-Ascends [] ys h = h
  sort_values-Ascends (x ∷ xs) ys h =
      sort_values-Ascends xs (insert_value fl x ys) (insert_value-Ascends x ys h)

  sort_values-All :
      (P : F → Type 0) (xs ys : List F) → All P xs → All P ys → All P (sort_values fl xs ys)
  unfolding sort_values
  sort_values-All P [] ys h k = k
  sort_values-All P (x ∷ xs) ys h k =
      sort_values-All P xs (insert_value fl x ys) h.1 (insert_value-All P x ys h.0 k)

  All-sort_values :
      (P : F → Type 0) (xs ys : List F) → All P (sort_values fl xs ys) → All P xs × All P ys
  unfolding sort_values
  All-sort_values P [] ys h = (tt, h)
  All-sort_values P (x ∷ xs) ys h =
      let rest = All-sort_values P xs (insert_value fl x ys) h in
      let first = All-insert_value P x ys rest.1 in ((first.0, rest.0), first.1)

  length-sort_values : (xs ys : List F) → length (sort_values fl xs ys) ≡ length xs + length ys
  unfolding sort_values
  length-sort_values [] ys = omega arith
  length-sort_values (x ∷ xs) ys =
      omega (arith, length-sort_values xs (insert_value fl x ys), length-insert_value x ys)

  All-get_or :
      (P : F → Type 0) (xs : List F) (i : ℕ) (d : F) → i < length xs → All P xs → P (get_or xs i d)
  All-get_or P [] i d h k = absurd (omega (arith, h))
  All-get_or P (x ∷ xs) zero d h k = k.0
  All-get_or P (x ∷ xs) (suc i) d h k = All-get_or P xs i d (omega (arith, h)) k.1

  -- No value is below the first of an ascending list, and the last is below none.
  first_least : (xs : List F) (d : F) → Ascends xs → All (NotBelow fl (get_or xs 0 d)) xs
  first_least [] d h = tt
  first_least (x ∷ xs) d h = (NotBelow-self x, h.0)

  last_greatest :
      (xs : List F) (d v : F)
      → v ≡ get_or xs (length xs - 1) d
      → Ascends xs
      → All (λ x. NotBelow fl x v) xs
  last_greatest [] d v e h = tt
  last_greatest (x ∷ []) d v e h = (rw (e) (NotBelow-self x), tt)
  last_greatest (x ∷ y ∷ ys) d v e h = (
    rw (later) (All-get_or (NotBelow fl x) (y ∷ ys) (suc (length ys) - 1) d (omega arith) h.0),
    last_greatest (y ∷ ys) d v later h.1,
  )
    where
      index : (n : ℕ) → suc (suc n) - 1 ≡ suc (suc n - 1)
      index n = omega arith

      later : v ≡ get_or (y ∷ ys) (suc (length ys) - 1) d
      later = e ∙ ap (λ i. get_or (x ∷ y ∷ ys) i d) (index (length ys))

  All-Has_tail : (x : F) (xs zs : List F) → All (Has xs) zs → All (Has (x ∷ xs)) zs
  All-Has_tail x xs [] h = tt
  All-Has_tail x xs (z ∷ zs) h = (inr h.0, All-Has_tail x xs zs h.1)

  All-Has : (xs : List F) → All (Has xs) xs
  All-Has [] = tt
  All-Has (x ∷ xs) = (inl refl, All-Has_tail x xs xs (All-Has xs))

  -- The statistics of at least one sample are there, and hold the number of the values, and a value
  -- that none is below and one that is below none as minimum and maximum, if `<` is a strict weak order
  -- of the values.
  pub summary-Describes :
      (s : TelemetrySample F) (ss : List (TelemetrySample F))
      → (st : MetricStatistics F) × (summary fl (s ∷ ss) ≡ some st)
        × Describes fl (values_of (s ∷ ss)) st
  unfolding summary
  summary-Describes s ss =
      let xs = values_of (s ∷ ss) in
      let sorted = sort_values fl xs [] in
      let all = sort_values-All (Has xs) xs [] (All-Has xs) tt in
      let ordered = sort_values-Ascends xs [] tt in
      let long = length-sort_values xs [] in
      (
        _,
        refl,
        record {
          minimum_taken = All-get_or (Has xs) sorted 0 (fl.literal 0 0) (omega (arith, long)) all;
          minimum_least =
              (All-sort_values (NotBelow fl (get_or sorted 0 (fl.literal 0 0))) xs []
                (first_least sorted (fl.literal 0 0) ordered)).0;
          maximum_taken =
              All-get_or (Has xs) sorted (length sorted - 1) (fl.literal 0 0) (omega (arith, long))
                all;
          maximum_greatest =
              (All-sort_values
                (λ x. NotBelow fl x (get_or sorted (length sorted - 1) (fl.literal 0 0))) xs []
                (last_greatest sorted (fl.literal 0 0) _ refl ordered)).0;
          count = omega (arith, long);
        },
      )
