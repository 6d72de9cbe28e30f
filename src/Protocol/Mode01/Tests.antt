-- ===== src/Protocol/Mode01/Tests.antt =====
-- Runs of the decoders of mode01.cpp, and their theorems at concrete inputs. The values are natural
-- numbers here, which stand in for `double`.
use rev_dash.Prelude.{
  ℕ, ◌+◌, ◌-◌, ◌*◌, ◌/◌, ◌^◌, ◌≡◌, refl, true, false, ◌&&◌, none, some, List, [], ◌∷◌, ltb, leb,
  ◌==◌, if◌then◌else◌, All,
}
use rev_dash.Core.Error.{Result, ok, success}
use rev_dash.Core.Types.{ObdMessage, synthetic}
use rev_dash.Core.Telemetry.{TelemetrySample, MetricId, SampleQuality}
use rev_dash.Core.Float.{Float}
use rev_dash.Protocol.Mode01.Catalog.{catalog, single, sample_of}
use rev_dash.Protocol.Mode01.Decode.{
  decode_mode01_response, check_header, decode_described, find_pid, find_mode01_pid_descriptor,
  check_front, out_of_bounds, call_decoder,
}
use rev_dash.Protocol.Mode01.Support.{
  SupportedMode01Pids, apply_bitmap, bitmap_flag, build_mode01_query_filter,
}
use rev_dash.Protocol.Mode01.Soundness.{
  Describes, decode_mode01_response-Describes, decode_mode01_response-defined,
}
use rev_dash.Protocol.Mode01.Bitmap.{apply_bitmap_lem}
use rev_dash.Protocol.Mode01.Queries.{IsQuery, IsAsked, build_mode01_query_filter_lem}

abbrev whole : Float ℕ
whole = record {
  of_nat = λ n. n;
  literal = λ m d. m / 10 ^ d;
  neg = λ n. 0;
  add = λ a b. a + b;
  sub = λ a b. a - b;
  mul = λ a b. a * b;
  div = λ a b. a / b;
  lt = ltb;
  eq = ◌==◌;
  is_finite = λ n. true;
}

abbrev speed : ObdMessage
speed = record {
  source_type = synthetic;
  ecu_address = none;
  monotonic_ts = 100;
  utc_ts = none;
  sequence_number = 3;
  length = 3;
  bytes = 0x41 ∷ 0x0d ∷ 90 ∷ [];
}

abbrev ninety : TelemetrySample ℕ
ninety = record {
  metric_id = MetricId.vehicle_speed;
  value = 90;
  quality = SampleQuality.valid;
  monotonic_ts = 100;
  utc_ts = none;
  sequence_number = 3;
  ecu_address = none;
}

decoded_speed : decode_mode01_response whole speed 0x0d ≡ some (ok (ninety ∷ []))
unfolding decode_mode01_response catalog check_header decode_described find_mode01_pid_descriptor
    find_pid check_front out_of_bounds call_decoder single sample_of
decoded_speed = refl

decode_mode01_response-Describes_example : Describes whole speed 0x0d (ninety ∷ [])
decode_mode01_response-Describes_example =
    decode_mode01_response-Describes whole speed 0x0d (ninety ∷ []) decoded_speed

decode_mode01_response-defined_example :
    (r : Result (List (TelemetrySample ℕ))) × (decode_mode01_response whole speed 0x0d ≡ some r)
decode_mode01_response-defined_example = decode_mode01_response-defined whole speed 0x0d

abbrev nothing : SupportedMode01Pids
nothing = λ _. false

abbrev bits : List ℕ
bits = 0xbe ∷ 0x3e ∷ 0xb8 ∷ 0x13 ∷ []

apply_bitmap_lem_example :
    ((apply_bitmap 0 bits nothing).0 ≡ success)
    × ((pid : ℕ)
        → (apply_bitmap 0 bits nothing).1 pid
          ≡ (if ltb 0 pid && leb pid 32 && leb pid 0xff then bitmap_flag bits (pid - 1) else false))
apply_bitmap_lem_example = apply_bitmap_lem 0 bits nothing refl

abbrev two_pids : SupportedMode01Pids
two_pids = λ pid. pid == 0x0c

build_mode01_query_filter_lem_example :
    All (IsQuery whole two_pids (catalog whole)) (build_mode01_query_filter whole two_pids)
    × All (IsAsked whole two_pids (build_mode01_query_filter whole two_pids)) (catalog whole)
build_mode01_query_filter_lem_example = build_mode01_query_filter_lem whole two_pids
