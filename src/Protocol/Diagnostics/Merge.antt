-- ===== src/Protocol/Diagnostics/Merge.antt =====
-- What `mergeMode09Metadata` makes of two answers of Mode 09.
use rev_dash.Prelude.{
  ◌≡◌, ◌≢◌, refl, sym, inl, inr, false, none, some, ◌++◌, arith, Bool-cases, Option,
}
use rev_dash.Core.Error.{code_of, make_error, failed, protocol_malformed_response}
use rev_dash.Core.Types.{EcuAddress, ecu_beq_iff}
use rev_dash.Core.Diagnostics.{Text, EcuMetadata, text_beq}
use rev_dash.Protocol.Diagnostics.Metadata.{merge_mode09_metadata, known_ecu, is_empty, other_ecu}
use rev_dash.Protocol.Diagnostics.Dedup.{text_beq_iff}

-- The result holds what both said, in order.
pub record IsUnion (t a r : EcuMetadata) : Type 0 where
  pub calibration_ids : r.calibration_ids ≡ t.calibration_ids ++ a.calibration_ids
  pub cvns : r.cvns ≡ t.cvns ++ a.cvns
  pub left_vin : is_empty t.vin ≡ false → r.vin ≡ t.vin
  pub right_vin : is_empty a.vin ≡ false → r.vin ≡ a.vin
  pub left_ecu : (e : EcuAddress) → t.ecu_address ≡ some e → r.ecu_address ≡ some e
  pub right_ecu : (e : EcuAddress) → a.ecu_address ≡ some e → r.ecu_address ≡ some e

-- Nothing but the address has changed.
pub record IsKept (t r : EcuMetadata) : Type 0 where
  pub vin : r.vin ≡ t.vin
  pub calibration_ids : r.calibration_ids ≡ t.calibration_ids
  pub cvns : r.cvns ≡ t.cvns
  pub protocol_name : r.protocol_name ≡ t.protocol_name

left_known : (e : EcuAddress) (x y : Option EcuAddress) → x ≡ some e → known_ecu x y ≡ some e
left_known e none y h = absurd cc
left_known e (some a) y h = h

right_known :
    (e : EcuAddress) (x y : Option EcuAddress)
    → other_ecu x y ≡ false
    → y ≡ some e
    → known_ecu x y ≡ some e
right_known e none y o h = h
right_known e (some a) none o h = absurd cc
right_known e (some a) (some b) o h = ground (arith, ecu_beq_iff a b)

united :
    (t a : EcuMetadata) (v : Text)
    → other_ecu t.ecu_address a.ecu_address ≡ false
    → (is_empty t.vin ≡ false → v ≡ t.vin)
    → (is_empty a.vin ≡ false → v ≡ a.vin)
    → IsUnion t a (record t {
      ecu_address = known_ecu t.ecu_address a.ecu_address;
      vin = v;
      calibration_ids = t.calibration_ids ++ a.calibration_ids;
      cvns = t.cvns ++ a.cvns;
    })
united t a v o l r = record {
  calibration_ids = refl;
  cvns = refl;
  left_vin = l;
  right_vin = r;
  left_ecu = λ e h. left_known e t.ecu_address a.ecu_address h;
  right_ecu = λ e h. right_known e t.ecu_address a.ecu_address o h;
}

-- A merge that succeeds leaves the union of the two in the target; in it a VIN or an ECU address that
-- either of them had is kept, so the two agreed on what both had. A merge that fails is malformed and
-- changes nothing of the target but its ECU address.
pub merge_mode09_metadata_lem :
    (t a : EcuMetadata)
    → (code_of (merge_mode09_metadata t a).0 ≡ none → IsUnion t a (merge_mode09_metadata t a).1)
      × (code_of (merge_mode09_metadata t a).0 ≢ none
          → (code_of (merge_mode09_metadata t a).0 ≡ failed protocol_malformed_response)
            × IsKept t (merge_mode09_metadata t a).1)
unfolding merge_mode09_metadata make_error
merge_mode09_metadata_lem t a = elim (Bool-cases (other_ecu t.ecu_address a.ecu_address)) [
  | inl o ↦ rw o (
    λ h. absurd cc,
    λ h. (refl, record { vin = refl; calibration_ids = refl; cvns = refl; protocol_name = refl }),
  )
  | inr o ↦ rw o (elim (Bool-cases (is_empty a.vin)) [
    | inl ea ↦ rw ea (λ _. united t a t.vin o (λ _. refl) (λ n. absurd cc), λ h. absurd (h refl))
    | inr ea ↦ rw ea (elim (Bool-cases (is_empty t.vin)) [
      | inl et ↦ rw et (λ _. united t a a.vin o (λ n. absurd cc) (λ _. refl), λ h. absurd (h refl))
      | inr et ↦ rw et (elim (Bool-cases (text_beq t.vin a.vin)) [
        | inl v ↦ rw v (
          λ _. united t a a.vin o (λ _. sym ((text_beq_iff t.vin a.vin).0 v)) (λ _. refl),
          λ h. absurd (h refl),
        )
        | inr v ↦ rw v (
          λ h. absurd cc,
          λ h. (
            refl,
            record { vin = refl; calibration_ids = refl; cvns = refl; protocol_name = refl },
          ),
        )
      ])
    ])
  ])
]
