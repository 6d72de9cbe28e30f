-- ===== src/Core/Types/Message.antt =====
-- What `ObdMessage::create` of types.hpp keeps of the bytes that it is given.
use rev_dash.Prelude.{
  ℕ, ◌%◌, ◌^◌, ◌≤◌, ◌≡◌, refl, Option, List, arith, length, take, copy_front, take-copy_front,
}
use rev_dash.Core.Error.{ok}
use rev_dash.Core.Types.{
  DataSourceType, EcuAddress, TimePoint, ObdMessage, payload_of, filled_message, create_message,
  zero_bytes, length-zero_bytes, max_iso_tp_payload_bytes,
}

-- What a message made from these arguments must say.
pub record Carries (source : DataSourceType) (ecu : Option EcuAddress) (bytes : List ℕ)
    (seq mono : ℕ) (utc : Option TimePoint) (m : ObdMessage) : Type 0 where
  pub payload : payload_of m ≡ bytes
  pub source_type : m.source_type ≡ source
  pub ecu_address : m.ecu_address ≡ ecu
  pub sequence_number : m.sequence_number ≡ seq
  pub monotonic_ts : m.monotonic_ts ≡ mono
  pub utc_ts : m.utc_ts ≡ utc

-- Bytes that fit come back from `payload` unchanged, though their count goes through 16 bits.
take-copied :
    (bytes : List ℕ)
    → length bytes ≤ max_iso_tp_payload_bytes
    → take (length bytes % 2 ^ 16) (copy_front bytes (zero_bytes max_iso_tp_payload_bytes)) ≡ bytes
take-copied bytes h =
    rw small (take-copy_front bytes _ (omega (arith, length-zero_bytes max_iso_tp_payload_bytes)))
  where
    small : length bytes % 2 ^ 16 ≡ length bytes
    small = omega arith

module _ (source : DataSourceType) (ecu : Option EcuAddress) (bytes : List ℕ) (seq mono : ℕ)
    (utc : Option TimePoint) where
  -- At most 4095 bytes make a message, whose payload is those bytes and whose other fields are the
  -- arguments.
  pub create_message-Carries :
      length bytes ≤ max_iso_tp_payload_bytes
      → (m : ObdMessage) × (create_message source ecu bytes seq mono utc ≡ ok m)
        × Carries source ecu bytes seq mono utc m
  unfolding create_message
  create_message-Carries h = (
    filled_message source ecu bytes seq mono utc,
    ground arith,
    record {
      payload = take-copied bytes h;
      source_type = refl;
      ecu_address = refl;
      sequence_number = refl;
      monotonic_ts = refl;
      utc_ts = refl;
    },
  )
