-- ===== src/Protocol/Diagnostics/Dedup.antt =====
-- `deduplicateDtcs` keeps one record for each code, status and ECU.
use rev_dash.Prelude.{
  ◌≡◌, sym, ◌∙◌, ◌↔◌, ◌⊎◌, inl, inr, true, false, Option, none, some, List, [], ◌∷◌, ◌++◌, arith,
  Bool-cases,
}
use rev_dash.Core.Types.{EcuAddress, ecu_beq, ecu_beq_iff, option_beq}
use rev_dash.Core.Diagnostics.{Text, text_beq, DtcStatus, status_beq, DtcRecord, dtc_beq}
use rev_dash.Protocol.Diagnostics.Dtc.{contains, deduplicate_onto, deduplicate_dtcs}

pub text_beq_iff : (a b : Text) → (text_beq a b ≡ true) ↔ (a ≡ b)
unfolding text_beq
text_beq_iff [] [] = ground arith
text_beq_iff [] (y ∷ ys) = ground arith
text_beq_iff (x ∷ xs) [] = ground arith
text_beq_iff (x ∷ xs) (y ∷ ys) = ground (arith, text_beq_iff xs ys)

status_beq_iff : (a b : DtcStatus) → (status_beq a b ≡ true) ↔ (a ≡ b)
status_beq_iff a b = ground arith

option_ecu_iff : (a b : Option EcuAddress) → (option_beq ecu_beq a b ≡ true) ↔ (a ≡ b)
option_ecu_iff none none = ground arith
option_ecu_iff none (some b) = ground arith
option_ecu_iff (some a) none = ground arith
option_ecu_iff (some a) (some b) = ground (arith, ecu_beq_iff a b)

absorb : {A U S R : Type 0} → A ↔ (U ⊎ R) → (S → U) → A ↔ (U ⊎ (S ⊎ R))
absorb k h = (
  λ a. elim (k.0 a) [ inl u ↦ inl u | inr r ↦ inr (inr r) ],
  elim [ inl u ↦ k.1 (inl u) | inr (inl s) ↦ k.1 (inl (h s)) | inr (inr r) ↦ k.1 (inr r) ],
)

regroup : {A T U S R : Type 0} → A ↔ (T ⊎ R) → T ↔ (U ⊎ S) → A ↔ (U ⊎ (S ⊎ R))
regroup k h = (
  λ a. elim (k.0 a) [
    | inl t ↦ elim (h.0 t) [ inl u ↦ inl u | inr s ↦ inr (inl s) ]
    | inr r ↦ inr (inr r)
  ],
  elim [
    | inl u ↦ k.1 (inl (h.1 (inl u)))
    | inr (inl s) ↦ k.1 (inl (h.1 (inr s)))
    | inr (inr r) ↦ k.1 (inr r)
  ],
)

ff : ¬ (true ≡ false)
ff h = cc

module _ (F : Type 0) where
  -- What `operator==` compares.
  abbrev pub IsSame : DtcRecord F → DtcRecord F → Type 0
  IsSame a b = (a.code ≡ b.code) × (a.status ≡ b.status) × (a.ecu_address ≡ b.ecu_address)

  dtc_beq_iff : (a b : DtcRecord F) → (dtc_beq a b ≡ true) ↔ IsSame a b
  dtc_beq_iff a b = ground (
    arith,
    text_beq_iff a.code b.code,
    status_beq_iff a.status b.status,
    option_ecu_iff a.ecu_address b.ecu_address,
  )

  -- Some record of the list is the same as this one.
  abbrev pub Has : List (DtcRecord F) → DtcRecord F → Type 0
  Has [] r = ⊥
  Has (x ∷ xs) r = IsSame x r ⊎ Has xs r

  -- No two records of the list are the same.
  abbrev pub IsDistinct : List (DtcRecord F) → Type 0
  IsDistinct [] = Unit
  IsDistinct (x ∷ xs) = (Has xs x → ⊥) × IsDistinct xs

  contains_iff : (xs : List (DtcRecord F)) (r : DtcRecord F) → (contains xs r ≡ true) ↔ Has xs r
  unfolding contains
  contains_iff [] r = ground arith
  contains_iff (x ∷ xs) r = ground (arith, dtc_beq_iff x r, contains_iff xs r)

  Has-append :
      (xs : List (DtcRecord F)) (x r : DtcRecord F) → Has (xs ++ x ∷ []) r ↔ (Has xs r ⊎ IsSame x r)
  Has-append [] x r = ground arith
  Has-append (y ∷ ys) x r = ground (arith, Has-append ys x r)

  Has-same : (xs : List (DtcRecord F)) (x r : DtcRecord F) → IsSame x r → Has xs x → Has xs r
  Has-same [] x r e h = h
  Has-same (y ∷ ys) x r e (inl s) = inl (s.0 ∙ e.0, s.1 ∙ e.1, s.2 ∙ e.2)
  Has-same (y ∷ ys) x r e (inr h) = inr (Has-same ys x r e h)

  flip : (x r : DtcRecord F) → IsSame x r → IsSame r x
  flip x r e = (sym e.0, sym e.1, sym e.2)

  IsDistinct-append :
      (xs : List (DtcRecord F)) (x : DtcRecord F)
      → IsDistinct xs
      → ¬ (Has xs x)
      → IsDistinct (xs ++ x ∷ [])
  IsDistinct-append [] x d h = ((λ e. e), tt)
  IsDistinct-append (y ∷ ys) x d h = (
    λ k. elim ((Has-append ys x y).0 k) [ inl m ↦ d.0 m | inr e ↦ h (inl (flip x y e)) ],
    IsDistinct-append ys x d.1 (λ k. h (inr k)),
  )

  deduplicate_onto_lem :
      (unique rs : List (DtcRecord F))
      → IsDistinct unique
      → IsDistinct (deduplicate_onto unique rs)
        × ((r : DtcRecord F) → Has (deduplicate_onto unique rs) r ↔ (Has unique r ⊎ Has rs r))
  unfolding deduplicate_onto
  deduplicate_onto_lem unique [] d = (d, λ r. (inl, elim [ inl h ↦ h | inr h ↦ absurd h ]))
  deduplicate_onto_lem unique (x ∷ rs) d = elim (Bool-cases (contains unique x)) [
    | inl y ↦ rw y (
        let rest = deduplicate_onto_lem unique rs d in
        (rest.0, λ r. absorb (rest.1 r) (λ e. Has-same unique x r e ((contains_iff unique x).0 y))))
    | inr n ↦ rw n (
        let rest =
          deduplicate_onto_lem (unique ++ x ∷ []) rs
            (IsDistinct-append unique x d (λ h. ff (sym ((contains_iff unique x).1 h) ∙ n))) in
        (rest.0, λ r. regroup (rest.1 r) (Has-append unique x r)))
  ]

  -- `deduplicateDtcs` returns records no two of which have the same code, status and ECU, and a record
  -- with the same three as a given one is returned exactly if one was passed in.
  pub deduplicate_dtcs_lem :
      (records : List (DtcRecord F))
      → IsDistinct (deduplicate_dtcs records)
        × ((r : DtcRecord F) → Has (deduplicate_dtcs records) r ↔ Has records r)
  unfolding deduplicate_dtcs
  deduplicate_dtcs_lem records =
      let rest = deduplicate_onto_lem [] records tt in (rest.0, λ r. ground (arith, rest.1 r))
