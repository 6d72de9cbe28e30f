-- ===== src/Core/Diagnostics.antt =====
-- headers/revdash/core/diagnostic_types.hpp: trouble codes, freeze frames and ECU metadata. Texts that
-- the code builds from bytes of the vehicle are lists of bytes.
pub mod Records
use rev_dash.Prelude.{ℕ, Option, Bool, true, false, List, [], ◌∷◌, ◌&&◌, ◌==◌}
use rev_dash.Core.Types.{EcuAddress, ecu_beq, option_beq, TimePoint}
use rev_dash.Core.Telemetry.{TelemetrySample}

abbrev pub Text : Type 0
Text = List ℕ

-- `operator==` of `std::string`
unfoldable pub text_beq : Text → Text → Bool
text_beq [] [] = true
text_beq (x ∷ xs) (y ∷ ys) = x == y && text_beq xs ys
text_beq _ _ = false

pub data Severity : Type 0 where
  advisory warning critical : Severity

pub data DtcStatus : Type 0 where
  confirmed pending permanent : DtcStatus

abbrev pub status_beq : DtcStatus → DtcStatus → Bool
status_beq DtcStatus.confirmed DtcStatus.confirmed = true
status_beq DtcStatus.pending DtcStatus.pending = true
status_beq DtcStatus.permanent DtcStatus.permanent = true
status_beq _ _ = false

module _ (F : Type 0) where
  pub record FreezeFrame : Type 0 where
    pub dtc_code : Text
    pub frame_number : ℕ
    pub timestamp : TimePoint
    pub samples : List (TelemetrySample F)

  pub record DtcRecord : Type 0 where
    pub code : Text
    pub status : DtcStatus
    pub severity : Severity
    pub description : Text
    pub likely_failure_points : List Text
    pub ecu_address : Option EcuAddress
    pub freeze_frame : Option FreezeFrame

-- `operator==` of `DtcRecord`: code, status and ECU count, nothing else.
abbrev pub dtc_beq : {F : Type 0} → DtcRecord F → DtcRecord F → Bool
dtc_beq a b =
    text_beq a.code b.code
    && status_beq a.status b.status
    && option_beq ecu_beq a.ecu_address b.ecu_address

pub record EcuMetadata : Type 0 where
  pub ecu_address : Option EcuAddress
  pub vin : Text
  pub calibration_ids : List Text
  pub cvns : List Text
  pub protocol_name : Text
