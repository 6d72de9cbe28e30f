-- ===== src/Protocol/Diagnostics/Codes.antt =====
-- What `decodeStoredDtcs`, `decodePendingDtcs` and `parseClearDiagnosticResponse` accept, and that a
-- trouble code determines the two bytes that it was printed from.
use rev_dash.Prelude.{
  ℕ, String, zero, suc, ◌+◌, ◌-◌, ◌*◌, ◌/◌, ◌%◌, ◌<◌, ◌≡◌, refl, ap, ◌↔◌, true, false, ◌&&◌, none,
  List, [], ◌∷◌, map, arith, ◌==◌, ==_iff, sym, ◌∙◌, some, if◌then◌else◌, get_or, length, All,
  Bool-cases, inl, inr,
}
use rev_dash.Core.Error.{ok, code_of, make_error}
use rev_dash.Core.Types.{ObdMessage, payload_of, IsByte}
use rev_dash.Core.Diagnostics.{Text, DtcStatus, DtcRecord}
use rev_dash.Protocol.Diagnostics.Service.{
  validate_positive_service, parse_clear_diagnostic_response,
}
use rev_dash.Protocol.Diagnostics.Dtc.{
  system_letters, hex_digits, decode_dtc, decode_pairs, decode_dtcs, decode_stored_dtcs,
  decode_pending_dtcs,
}

-- The value of a digit among `digits`.
abbrev pub position : ℕ → List ℕ → ℕ
position c [] = 0
position c (x ∷ xs) = if x == c then 0 else suc (position c xs)

-- The two bytes that a printed code stands for.
unfoldable pub encode_dtc : Text → ℕ × ℕ
encode_dtc (c0 ∷ c1 ∷ c2 ∷ c3 ∷ c4 ∷ []) = (
  position c0 system_letters * 64 + (c1 - b'0') * 16 + position c2 hex_digits,
  position c3 hex_digits * 16 + position c4 hex_digits,
)
encode_dtc _ = (0, 0)

position-hex : (i : ℕ) → i < 16 → position (get_or hex_digits i 0) hex_digits ≡ i
position-hex zero h = refl
position-hex (suc zero) h = refl
position-hex (suc (suc zero)) h = refl
position-hex (suc (suc (suc zero))) h = refl
position-hex (suc (suc (suc (suc zero)))) h = refl
position-hex (suc (suc (suc (suc (suc zero))))) h = refl
position-hex (suc (suc (suc (suc (suc (suc zero)))))) h = refl
position-hex (suc (suc (suc (suc (suc (suc (suc zero))))))) h = refl
position-hex (suc (suc (suc (suc (suc (suc (suc (suc zero)))))))) h = refl
position-hex (suc (suc (suc (suc (suc (suc (suc (suc (suc zero))))))))) h = refl
position-hex (suc (suc (suc (suc (suc (suc (suc (suc (suc (suc zero)))))))))) h = refl
position-hex (suc (suc (suc (suc (suc (suc (suc (suc (suc (suc (suc zero))))))))))) h = refl
position-hex (suc (suc (suc (suc (suc (suc (suc (suc (suc (suc (suc (suc zero)))))))))))) h = refl
position-hex (suc (suc (suc (suc (suc (suc (suc (suc (suc (suc (suc (suc (suc zero))))))))))))) h =
    refl
position-hex
      (suc (suc (suc (suc (suc (suc (suc (suc (suc (suc (suc (suc (suc (suc zero)))))))))))))) h =
    refl
position-hex
      (suc (suc (suc (suc (suc (suc (suc (suc (suc (suc (suc (suc (suc (suc (suc zero)))))))))))))))
      h =
    refl
position-hex
      (suc
        (suc (suc (suc (suc (suc (suc (suc (suc (suc (suc (suc (suc (suc (suc (suc n))))))))))))))))
      h =
    absurd (omega arith)

position-letter : (i : ℕ) → i < 4 → position (get_or system_letters i 0) system_letters ≡ i
position-letter zero h = refl
position-letter (suc zero) h = refl
position-letter (suc (suc zero)) h = refl
position-letter (suc (suc (suc zero))) h = refl
position-letter (suc (suc (suc (suc n)))) h = absurd (omega arith)

pair_eq : {x y : ℕ × ℕ} → x.0 ≡ y.0 → x.1 ≡ y.1 → x ≡ y
pair_eq e f = λ i. (e i, f i)

-- The code printed for two bytes reads back as those bytes.
pub encode_dtc-decode_dtc : (a b : ℕ) → IsByte a → IsByte b → encode_dtc (decode_dtc a b) ≡ (a, b)
unfolding encode_dtc decode_dtc
encode_dtc-decode_dtc a b ha hb = rw (position-letter (a / 64 % 4) (omega arith)) (
    rw (position-hex (a % 16) (omega arith)) (
      rw (position-hex (b / 16 % 16) (omega arith))
        (rw (position-hex (b % 16) (omega arith)) (pair_eq (omega arith) (omega arith)))))

-- The pairs that the loop keeps: those that are not two zeros.
abbrev pub faults : List (ℕ × ℕ) → List (ℕ × ℕ)
faults [] = []
faults ((a, b) ∷ ps) = if a == 0 && b == 0 then faults ps else (a, b) ∷ faults ps

abbrev pub flat : List (ℕ × ℕ) → List ℕ
flat [] = []
flat ((a, b) ∷ ps) = a ∷ b ∷ flat ps

abbrev pub IsPair : ℕ × ℕ → Type 0
IsPair p = IsByte p.0 × IsByte p.1

length-flat : (ps : List (ℕ × ℕ)) → length (flat ps) % 2 ≡ 0
length-flat [] = refl
length-flat ((a, b) ∷ ps) = omega (arith, length-flat ps)

module _ (F : Type 0) where
  -- Every record names the ECU that answered and the status of the service.
  abbrev pub IsFrom : ObdMessage → DtcStatus → DtcRecord F → Type 0
  IsFrom message status r = (r.status ≡ status) × (r.ecu_address ≡ message.ecu_address)

  abbrev pub bytes_of : DtcRecord F → ℕ × ℕ
  bytes_of r = encode_dtc r.code

  decode_pairs-faults :
      (message : ObdMessage) (status : DtcStatus) (ps : List (ℕ × ℕ))
      → All IsPair ps
      → (map bytes_of (decode_pairs {F = F} message status (flat ps)) ≡ faults ps)
        × All (IsFrom message status) (decode_pairs {F = F} message status (flat ps))
  unfolding decode_pairs
  decode_pairs-faults message status [] h = (refl, tt)
  decode_pairs-faults message status ((a, b) ∷ ps) h =
      let rest = decode_pairs-faults message status ps h.1 in
      elim (Bool-cases (a == 0 && b == 0)) [
        | inl y ↦ rw y rest
        | inr n ↦ rw n (
          rw (encode_dtc-decode_dtc a b h.0.0 h.0.1) (ap (◌∷◌ (a, b)) rest.0),
          ((refl, refl), rest.1),
        )
      ]

  decode_dtcs-faults :
      (message : ObdMessage) (service : ℕ) (status : DtcStatus) (name : String) (ps : List (ℕ × ℕ))
      → (service == 0x7f) ≡ false
      → payload_of message ≡ service ∷ flat ps
      → All IsPair ps
      → (rs : List (DtcRecord F)) × (decode_dtcs message service status name ≡ ok rs)
        × (map bytes_of rs ≡ faults ps)
        × All (IsFrom message status) rs
  unfolding decode_dtcs validate_positive_service
  decode_dtcs-faults message service status name ps hs e h =
      (decode_pairs message status (flat ps), accepted, kept.0, kept.1)
    where
      kept :
          (map bytes_of (decode_pairs {F = F} message status (flat ps)) ≡ faults ps)
          × All (IsFrom message status) (decode_pairs {F = F} message status (flat ps))
      kept = decode_pairs-faults message status ps h

      accepted :
          decode_dtcs {F = F} message service status name
          ≡ ok (decode_pairs message status (flat ps))
      accepted = rw e (ground (arith, length-flat ps))

  -- A positive Mode 03 response, which is 0x43 and pairs of bytes, is decoded to one confirmed record of
  -- the answering ECU for every pair but (0, 0), in order, whose code reads back as that pair; a
  -- Mode 07 response, which starts with 0x47, likewise to pending records.
  pub decode_stored_dtcs-faults :
      (message : ObdMessage) (ps : List (ℕ × ℕ))
      → All IsPair ps
      → (payload_of message ≡ 0x43 ∷ flat ps
          → (rs : List (DtcRecord F)) × (decode_stored_dtcs message ≡ ok rs)
            × (map bytes_of rs ≡ faults ps)
            × All (IsFrom message DtcStatus.confirmed) rs)
        × (payload_of message ≡ 0x47 ∷ flat ps
            → (rs : List (DtcRecord F)) × (decode_pending_dtcs message ≡ ok rs)
              × (map bytes_of rs ≡ faults ps)
              × All (IsFrom message DtcStatus.pending) rs)
  unfolding decode_stored_dtcs decode_pending_dtcs
  decode_stored_dtcs-faults message ps h = (
    λ e. decode_dtcs-faults message 0x43 DtcStatus.confirmed "Mode 03" ps refl e h,
    λ e. decode_dtcs-faults message 0x47 DtcStatus.pending "Mode 07" ps refl e h,
  )

  not_nil : (x : ℕ) (xs : List ℕ) → (length (x ∷ xs) == 0) ≡ false
  not_nil x xs = ground arith

  odd : (xs : List ℕ) → length xs % 2 ≡ 0 → suc (length xs) % 2 ≡ 1
  odd xs h = omega arith

  even : (xs : List ℕ) → suc (length xs) % 2 ≡ 1 → (length xs % 2 == 0) ≡ true
  even xs h = (==_iff _ _).1 (omega arith)

  failed_not_none : {s : String} → ¬ (some s ≡ none)
  failed_not_none h = cc

  true_not_false : ¬ (true ≡ false)
  true_not_false h = cc

  decode_dtcs-accepts :
      (message : ObdMessage) (service : ℕ) (status : DtcStatus) (name : String) (bytes : List ℕ)
      → (service == 0x7f) ≡ false
      → (0 == service) ≡ false
      → payload_of message ≡ bytes
      → (code_of (decode_dtcs {F = F} message service status name) ≡ none)
        ↔ ((get_or bytes 0 0 ≡ service) × (length bytes % 2 ≡ 1))
  unfolding decode_dtcs validate_positive_service make_error
  decode_dtcs-accepts message service status name [] h k e = rw e (ground arith)
  decode_dtcs-accepts message service status name (x ∷ xs) h k e =
      rw e (elim (Bool-cases (x == 0x7f)) [
        | inl n ↦ rw n (ground arith)
        | inr n ↦ rw n (elim (Bool-cases (x == service)) [
          | inl m ↦ rw m (elim (Bool-cases (length xs % 2 == 0)) [
            | inl y ↦
                rw y (
                  rw (not_nil x xs) (λ _. ((==_iff _ _).0 m, odd xs ((==_iff _ _).0 y)), λ _. refl))
            | inr y ↦ rw y (
                rw (not_nil x xs) (
                  λ c. absurd (failed_not_none c),
                  λ g. absurd (true_not_false (sym (even xs g.1) ∙ y)),
                ))
          ])
          | inr m ↦ rw m (ground arith)
        ])
      ])

  -- A response is decoded to stored codes exactly if its payload starts with 0x43 and goes on with an
  -- even number of bytes, and to pending codes exactly if it starts with 0x47 and does.
  pub decode_stored_dtcs-accepts :
      (message : ObdMessage)
      → ((code_of (decode_stored_dtcs {F = F} message) ≡ none)
          ↔ ((get_or (payload_of message) 0 0 ≡ 0x43) × (length (payload_of message) % 2 ≡ 1)))
        × ((code_of (decode_pending_dtcs {F = F} message) ≡ none)
            ↔ ((get_or (payload_of message) 0 0 ≡ 0x47) × (length (payload_of message) % 2 ≡ 1)))
  unfolding decode_stored_dtcs decode_pending_dtcs
  decode_stored_dtcs-accepts message = (
    decode_dtcs-accepts message 0x43 DtcStatus.confirmed "Mode 03" _ refl refl refl,
    decode_dtcs-accepts message 0x47 DtcStatus.pending "Mode 07" _ refl refl refl,
  )

cleared_iff :
    (message : ObdMessage) (bytes : List ℕ)
    → payload_of message ≡ bytes
    → (code_of (parse_clear_diagnostic_response message) ≡ none) ↔ (bytes ≡ 0x44 ∷ [])
unfolding parse_clear_diagnostic_response validate_positive_service make_error
cleared_iff message [] e = rw e (ground arith)
cleared_iff message (x ∷ []) e = rw e (ground arith)
cleared_iff message (x ∷ y ∷ xs) e = rw e (ground arith)

-- The answer to a request to clear trouble codes is taken for a success exactly if it is the one
-- byte 0x44.
pub parse_clear_diagnostic_response_iff :
    (message : ObdMessage)
    → (code_of (parse_clear_diagnostic_response message) ≡ none) ↔ (payload_of message ≡ 0x44 ∷ [])
unfolding parse_clear_diagnostic_response
parse_clear_diagnostic_response_iff message = cleared_iff message _ refl
