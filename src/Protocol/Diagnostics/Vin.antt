-- ===== src/Protocol/Diagnostics/Vin.antt =====
-- Which answers `decodeMode09Metadata` takes for a VIN.
use rev_dash.Prelude.{
  ℕ, ◌≡◌, ◌≢◌, refl, inl, inr, true, false, none, List, ◌∷◌, arith, ◌==◌, ==_iff, length, all_of,
  Bool-cases, suc,
}
use rev_dash.Core.Error.{ok, success, code_of, make_error, failed, protocol_malformed_response}
use rev_dash.Core.Types.{ObdMessage, payload_of}
use rev_dash.Core.Diagnostics.{Text}
use rev_dash.Protocol.Diagnostics.Service.{validate_positive_service}
use rev_dash.Protocol.Diagnostics.Metadata.{
  is_vin_character, validate_mode09_header, metadata_from, decode_vin, decode_mode09_metadata,
}

header_ok :
    (message : ObdMessage) (rest : List ℕ)
    → payload_of message ≡ 0x49 ∷ 0x02 ∷ rest
    → validate_mode09_header message 0x02 ≡ success
unfolding validate_mode09_header validate_positive_service
header_ok message rest e = rw e (ground arith)

to_vin :
    (message : ObdMessage) (rest : List ℕ)
    → payload_of message ≡ 0x49 ∷ 0x02 ∷ rest
    → decode_mode09_metadata message 0x02 ≡ decode_vin message rest
unfolding decode_mode09_metadata
to_vin message rest e = rw (header_ok message rest e) (rw e refl)

nonzero : (n : ℕ) → (n == 0) ≡ false → n ≢ 0
nonzero n h e = ground arith

size : (vin : Text) → suc (length vin) ≡ 18 → length vin ≡ 17
size vin h = omega arith

sized : (vin : Text) → length vin ≡ 17 → ¬ ((suc (length vin) == 18) ≡ false)
sized vin k h = ground arith

decoded :
    (message : ObdMessage) (n : ℕ) (vin : Text)
    → (n ≢ 0
        → length vin ≡ 17
        → all_of is_vin_character vin ≡ true
        → decode_vin message (n ∷ vin) ≡ ok (record (metadata_from message) { vin = vin }))
      × (code_of (decode_vin message (n ∷ vin)) ≢ none
          → code_of (decode_vin message (n ∷ vin)) ≡ failed protocol_malformed_response)
      × (code_of (decode_vin message (n ∷ vin)) ≡ none
          → (n ≢ 0) × (length vin ≡ 17) × (all_of is_vin_character vin ≡ true))
unfolding decode_vin make_error
decoded message n vin = elim (Bool-cases (length (n ∷ vin) == 18)) [
  | inl l ↦ rw l (elim (Bool-cases (n == 0)) [
    | inl z ↦ rw z (λ nz _ _. absurd (nz ((==_iff n 0).0 z)), λ _. refl, λ h. absurd cc)
    | inr p ↦ rw p (elim (Bool-cases (all_of is_vin_character vin)) [
      | inl y ↦ rw y (
        λ _ _ _. refl,
        λ h. absurd (h refl),
        λ _. (nonzero n p, size vin ((==_iff _ _).0 l), refl),
      )
      | inr q ↦ rw q (λ _ _ y. absurd cc, λ _. refl, λ h. absurd cc)
    ])
  ])
  | inr l ↦ rw l (λ _ k _. absurd (sized vin k l), λ _. refl, λ h. absurd cc)
]

-- Of a record that starts with the number `n`, decoding makes metadata of the answering ECU with the
-- characters after it as the VIN, if `n` is not zero and they are 17 allowed ones; any other record is
-- refused as malformed.
pub decode_mode09_metadata-vin :
    (message : ObdMessage) (n : ℕ) (vin : Text)
    → payload_of message ≡ 0x49 ∷ 0x02 ∷ n ∷ vin
    → (n ≢ 0
        → length vin ≡ 17
        → all_of is_vin_character vin ≡ true
        → decode_mode09_metadata message 0x02 ≡ ok (record (metadata_from message) { vin = vin }))
      × (code_of (decode_mode09_metadata message 0x02) ≢ none
          → code_of (decode_mode09_metadata message 0x02) ≡ failed protocol_malformed_response)
      × (code_of (decode_mode09_metadata message 0x02) ≡ none
          → (n ≢ 0) × (length vin ≡ 17) × (all_of is_vin_character vin ≡ true))
decode_mode09_metadata-vin message n vin e = rw (to_vin message (n ∷ vin) e) (decoded message n vin)
