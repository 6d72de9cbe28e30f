-- ===== src/Drivers/Scheduler/Select.antt =====
-- The loop of `next` selects a due PID that no other due PID comes before.
use rev_dash.Prelude.{
  ℕ, zero, suc, ◌+◌, ◌≤◌, ◌<◌, ◌≡◌, refl, ◌⊎◌, inl, inr, true, false, Option, none, some, List, [],
  ◌∷◌, arith, ltb, Bool-cases, Option-cases, sym, ap, ◌∙◌,
}
use rev_dash.Core.Types.{TimePoint}
use rev_dash.Drivers.Scheduler.{Candidate, comes_before, replaces, select_from}

-- A predicate of the PID and the due time at every index.
abbrev pub Slots : (ℕ → TimePoint → Type 0) → List ℕ → List TimePoint → Type 0
Slots P (p ∷ ps) (d ∷ ds) = P p d × Slots P ps ds
Slots P _ _ = Unit

-- The PID and the due time stand at this index.
abbrev pub IsAt : ℕ → ℕ → TimePoint → List ℕ → List TimePoint → Type 0
IsAt zero p d (q ∷ qs) (e ∷ es) = (q ≡ p) × (e ≡ d)
IsAt (suc i) p d (q ∷ qs) (e ∷ es) = IsAt i p d qs es
IsAt _ p d _ _ = ⊥

-- Not due, or not before the candidate.
abbrev pub IsBehind : TimePoint → Candidate → ℕ → TimePoint → Type 0
IsBehind now c p d = now < d ⊎ (comes_before p d c.pid c.due ≡ false)

-- What a selection says of the entries that it was made from and of the selection before it.
abbrev pub Best : TimePoint → List ℕ → List TimePoint → Option Candidate → Option Candidate → Type 0
Best now ps ds before none = (before ≡ none) × Slots (λ p d. now < d) ps ds
Best now ps ds before (some c) =
    Slots (IsBehind now c) ps ds
    × ((b : Candidate) → before ≡ some b → comes_before b.pid b.due c.pid c.due ≡ false)

before_self : (c : Candidate) → comes_before c.pid c.due c.pid c.due ≡ false
unfolding comes_before
before_self c = ground arith

-- What is before `c` is before whatever `c` is before.
before_trans :
    (p : ℕ) (d : TimePoint) (b c : Candidate)
    → comes_before b.pid b.due c.pid c.due ≡ false
    → comes_before p d c.pid c.due ≡ true
    → comes_before p d b.pid b.due ≡ true
unfolding comes_before
before_trans p d b c h k = ground arith

wrong_none : {c : Candidate} → ¬ (some c ≡ none)
wrong_none e = cc

not_before :
    (p : ℕ) (d : TimePoint) (b c : Candidate)
    → comes_before b.pid b.due c.pid c.due ≡ false
    → comes_before p d b.pid b.due ≡ false
    → comes_before p d c.pid c.due ≡ false
not_before p d b c h k = elim (Bool-cases (comes_before p d c.pid c.due)) [
  | inl y ↦ absurd (ground (arith, before_trans p d b c h y))
  | inr n ↦ n
]

-- Where an entry was taken, what had been selected is not before it.
asym :
    (p : ℕ) (d : TimePoint) (b : Candidate)
    → comes_before p d b.pid b.due ≡ true
    → comes_before b.pid b.due p d ≡ false
unfolding comes_before
asym p d b h = ground arith

some_same : {b c : Candidate} → some b ≡ some c → b ≡ c
some_same e = cc

-- The entry is not due, or what was selected with it in view is not behind it.
abbrev IsSeen : TimePoint → ℕ → TimePoint → Option Candidate → Type 0
IsSeen now p d after =
    now < d ⊎ ((b : Candidate) × (after ≡ some b) × (comes_before p d b.pid b.due ≡ false))

abbrev IsPassedOn : Option Candidate → Option Candidate → Type 0
IsPassedOn before after =
    (a : Candidate)
    → before ≡ some a
    → (b : Candidate) × (after ≡ some b) × (comes_before a.pid a.due b.pid b.due ≡ false)

Best-cons :
    (now : TimePoint) (p : ℕ) (d : TimePoint) (ps : List ℕ) (ds : List TimePoint)
    (before after r : Option Candidate)
    → IsSeen now p d after
    → IsPassedOn before after
    → Best now ps ds after r
    → Best now (p ∷ ps) (d ∷ ds) before r
Best-cons now p d ps ds before after none seen old ih = (lost, (late seen, ih.1))
  where
    lost : before ≡ none
    lost = elim (Option-cases before) [
      | inl e ↦ e
      | inr (a, e) ↦ absurd (wrong_none (sym (old a e).1 ∙ ih.0))
    ]

    late : IsSeen now p d after → now < d
    late (inl h) = h
    late (inr (b, e, h)) = absurd (wrong_none (sym e ∙ ih.0))
Best-cons now p d ps ds before after (some c) seen old ih = ((behind seen, ih.0), kept)
  where
    behind : IsSeen now p d after → IsBehind now c p d
    behind (inl h) = inl h
    behind (inr (b, e, h)) = inr (not_before p d b c (ih.1 b e) h)

    kept : (a : Candidate) → before ≡ some a → comes_before a.pid a.due c.pid c.due ≡ false
    kept a e = let (b, f, h) = old a e in not_before a.pid a.due b c (ih.1 b f) h

passed_self : (before : Option Candidate) → IsPassedOn before before
passed_self before a e = (a, e, before_self a)

nothing_passed : (after : Option Candidate) → IsPassedOn none after
nothing_passed after a e = absurd (wrong_none (sym e))

abbrev entry : ℕ → ℕ → TimePoint → Candidate
entry i p d = record { index = i; pid = p; due = d }

replaced :
    (i p : ℕ) (d : TimePoint) (b : Candidate)
    → comes_before p d b.pid b.due ≡ true
    → IsPassedOn (some b) (some (entry i p d))
replaced i p d b y a e = (entry i p d, refl, rw (← some_same e) (asym p d b y))

pub select_from-Best :
    (i : ℕ) (ps : List ℕ) (ds : List TimePoint) (now : TimePoint) (before : Option Candidate)
    → Best now ps ds before (select_from i ps ds now before)
unfolding select_from replaces
select_from-Best i [] ds now none = (refl, tt)
select_from-Best i [] ds now (some b) = (tt, λ c e. ground (arith, before_self b))
select_from-Best i (p ∷ ps) [] now none = (refl, tt)
select_from-Best i (p ∷ ps) [] now (some b) = (tt, λ c e. ground (arith, before_self b))
select_from-Best i (p ∷ ps) (d ∷ ds) now none = elim (Bool-cases (ltb now d)) [
  | inl y ↦ rw y (
      Best-cons now p d ps ds none none _ (inl (ground arith)) (nothing_passed none)
        (select_from-Best (suc i) ps ds now none))
  | inr n ↦ rw n (
      Best-cons now p d ps ds none (some (entry i p d)) _
        (inr (entry i p d, refl, before_self (entry i p d))) (nothing_passed _)
        (select_from-Best (suc i) ps ds now (some (entry i p d))))
]
select_from-Best i (p ∷ ps) (d ∷ ds) now (some b) = elim (Bool-cases (ltb now d)) [
  | inl y ↦ rw y (
      Best-cons now p d ps ds (some b) (some b) _ (inl (ground arith)) (passed_self (some b))
        (select_from-Best (suc i) ps ds now (some b)))
  | inr n ↦ rw n (elim (Bool-cases (comes_before p d b.pid b.due)) [
    | inl y ↦ rw y (
        Best-cons now p d ps ds (some b) (some (entry i p d)) _
          (inr (entry i p d, refl, before_self (entry i p d))) (replaced i p d b y)
          (select_from-Best (suc i) ps ds now (some (entry i p d))))
    | inr k ↦ rw k (
        Best-cons now p d ps ds (some b) (some b) _ (inr (b, refl, k)) (passed_self (some b))
          (select_from-Best (suc i) ps ds now (some b)))
  ])
]

-- What the loop reports from index `i` on: what it had, or a due entry with its index.
abbrev pub Found : ℕ → TimePoint → List ℕ → List TimePoint → Option Candidate → Candidate → Type 0
Found i now ps ds before c =
    before ≡ some c ⊎ ((j : ℕ) × (c.index ≡ i + j) × IsAt j c.pid c.due ps ds × (c.due ≤ now))

Found-cons :
    (i : ℕ) (now : TimePoint) (p : ℕ) (d : TimePoint) (ps : List ℕ) (ds : List TimePoint)
    (before : Option Candidate) (c : Candidate)
    → Found (suc i) now ps ds before c
    → Found i now (p ∷ ps) (d ∷ ds) before c
Found-cons i now p d ps ds before c (inl e) = inl e
Found-cons i now p d ps ds before c (inr (j, e, h, l)) = inr (suc j, omega arith, h, l)

Found-new :
    (i : ℕ) (now : TimePoint) (p : ℕ) (d : TimePoint) (ps : List ℕ) (ds : List TimePoint)
    (before : Option Candidate) (c : Candidate)
    → d ≤ now
    → Found (suc i) now ps ds (some (entry i p d)) c
    → Found i now (p ∷ ps) (d ∷ ds) before c
Found-new i now p d ps ds before c h (inl e) = inr (
  0,
  ap Candidate.index (sym (some_same e)) ∙ omega arith,
  (ap Candidate.pid (some_same e), ap Candidate.due (some_same e)),
  rw (← some_same e) h,
)
Found-new i now p d ps ds before c h (inr (j, e, k, l)) = inr (suc j, omega arith, k, l)

pub select_from-Found :
    (i : ℕ) (ps : List ℕ) (ds : List TimePoint) (now : TimePoint) (before : Option Candidate)
    (c : Candidate)
    → select_from i ps ds now before ≡ some c
    → Found i now ps ds before c
unfolding select_from
select_from-Found i [] ds now before c e = inl e
select_from-Found i (p ∷ ps) [] now before c e = inl e
select_from-Found i (p ∷ ps) (d ∷ ds) now before c e = elim (Bool-cases (ltb now d)) [
  | inl y ↦
      Found-cons i now p d ps ds before c (select_from-Found (suc i) ps ds now before c (rw y at e))
  | inr n ↦ elim (Bool-cases (replaces p d before)) [
    | inl y ↦
        Found-new i now p d ps ds before c (ground arith)
          (select_from-Found (suc i) ps ds now (some (entry i p d)) c (rw (n, y) at e))
    | inr k ↦
        Found-cons i now p d ps ds before c
          (select_from-Found (suc i) ps ds now before c (rw (n, k) at e))
  ]
]
