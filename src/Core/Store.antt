-- ===== src/Core/Store.antt =====
-- headers/revdash/core/latest_telemetry_store.hpp, with the accessors of `TelemetrySnapshot` in
-- headers/revdash/core/telemetry_types.hpp. The locks and their counters are left out: a call is one
-- step. The blank sample that a fresh snapshot is filled with is an argument, since it reads the clock.
mod Tests
use rev_dash.Prelude.{
  ℕ, zero, suc, ◌≤◌, ◌<◌, ◌≡◌, refl, sym, ◌∙◌, ap, Bool, not, List, [], ◌∷◌, ◌++◌, arith, leb, ltb,
  ◌==◌, if◌then◌else◌, length, get_or, replicate, Option,
}
use rev_dash.Core.Types.{TimePoint}
use rev_dash.Core.Telemetry.{
  MetricId, metric_index, metric_count, TelemetrySample, TelemetrySnapshot, is_valid_quality,
  is_unsupported_quality,
}

abbrev pub replace_at {ℓ} : {A : Type ℓ} → ℕ → A → List A → List A
replace_at i x [] = []
replace_at zero x (y ∷ ys) = x ∷ ys
replace_at (suc i) x (y ∷ ys) = y ∷ replace_at i x ys

module _ {F : Type 0} where
  -- `TelemetrySnapshot::get`; `invalid` is `kInvalidSample`
  unfoldable pub get : TelemetrySample F → MetricId → TelemetrySnapshot F → TelemetrySample F
  get invalid id snapshot =
      if ltb (metric_index id) metric_count
      then get_or snapshot.samples (metric_index id) invalid
      else invalid

  -- `getValueOrDefault`
  unfoldable pub get_value_or_default : TelemetrySample F → MetricId → F → TelemetrySnapshot F → F
  unfolding get
  get_value_or_default invalid id fallback snapshot =
      let sample = get invalid id snapshot in
      if is_valid_quality sample.quality then sample.value else fallback

  -- `isValid`
  unfoldable pub is_valid : TelemetrySample F → MetricId → TelemetrySnapshot F → Bool
  unfolding get
  is_valid invalid id snapshot = is_valid_quality (get invalid id snapshot).quality

  -- `isSupported`
  unfoldable pub is_supported : TelemetrySample F → MetricId → TelemetrySnapshot F → Bool
  unfolding get
  is_supported invalid id snapshot = not (is_unsupported_quality (get invalid id snapshot).quality)

  -- `LatestTelemetryStore::update`
  unfoldable pub update : TelemetrySample F → TelemetrySnapshot F → TelemetrySnapshot F
  update sample snapshot =
      if leb metric_count (metric_index sample.metric_id) then snapshot else record snapshot {
        samples = replace_at (metric_index sample.metric_id) sample snapshot.samples;
        snapshot_monotonic_ts = sample.monotonic_ts;
        snapshot_utc_ts = sample.utc_ts;
      }

  -- `LatestTelemetryStore::setEpoch`
  unfoldable pub set_epoch :
      TelemetrySample F → TimePoint → Option TimePoint → ℕ → TelemetrySnapshot F
  set_epoch blank now utc epoch = record {
    snapshot_monotonic_ts = now;
    snapshot_utc_ts = utc;
    epoch = epoch;
    samples = replicate metric_count blank;
  }

  unfoldable pub update_all : List (TelemetrySample F) → TelemetrySnapshot F → TelemetrySnapshot F
  unfolding update
  update_all [] snapshot = snapshot
  update_all (sample ∷ samples) snapshot = update_all samples (update sample snapshot)

  -- The last sample of the metric in the list, or else `found`.
  abbrev pub latest : MetricId → TelemetrySample F → List (TelemetrySample F) → TelemetrySample F
  latest id found [] = found
  latest id found (sample ∷ samples) =
      latest id (if metric_index sample.metric_id == metric_index id then sample else found) samples

pub length-replace_at {ℓ} :
    {A : Type ℓ} (i : ℕ) (x : A) (ys : List A) → length (replace_at i x ys) ≡ length ys
length-replace_at i x [] = refl
length-replace_at zero x (y ∷ ys) = refl
length-replace_at (suc i) x (y ∷ ys) = ap suc (length-replace_at i x ys)

pub get_or-replace_at {ℓ} :
    {A : Type ℓ} (i j : ℕ) (x d : A) (ys : List A)
    → i < length ys
    → get_or (replace_at i x ys) j d ≡ (if i == j then x else get_or ys j d)
get_or-replace_at i j x d [] h = absurd (omega arith)
get_or-replace_at zero zero x d (y ∷ ys) h = ground arith
get_or-replace_at zero (suc j) x d (y ∷ ys) h = ground arith
get_or-replace_at (suc i) zero x d (y ∷ ys) h = ground arith
get_or-replace_at (suc i) (suc j) x d (y ∷ ys) h =
    ground (arith, get_or-replace_at i j x d ys (omega arith))

module _ {F : Type 0} (invalid : TelemetrySample F) where
  update-length :
      (sample : TelemetrySample F) (s : TelemetrySnapshot F)
      → length s.samples ≡ metric_count
      → length (update sample s).samples ≡ metric_count
  unfolding update
  update-length sample s h =
      ground (arith, length-replace_at (metric_index sample.metric_id) sample s.samples)

  get-update :
      (id : MetricId) (sample : TelemetrySample F) (s : TelemetrySnapshot F)
      → metric_index id < metric_count
      → length s.samples ≡ metric_count
      → get invalid id (update sample s)
        ≡ (if metric_index sample.metric_id == metric_index id then sample else get invalid id s)
  unfolding get update
  get-update id sample s b h = ground (
    arith,
    get_or-replace_at (metric_index sample.metric_id) (metric_index id) sample invalid s.samples,
  )

  -- After any updates of a snapshot that has a sample for each metric, each metric reads as the last
  -- sample of it that came in, or as it read before when none did.
  pub get-update_all :
      (id : MetricId) (samples : List (TelemetrySample F)) (s : TelemetrySnapshot F)
      → metric_index id < metric_count
      → length s.samples ≡ metric_count
      → get invalid id (update_all samples s) ≡ latest id (get invalid id s) samples
  unfolding update_all
  get-update_all id [] s b h = refl
  get-update_all id (sample ∷ samples) s b h =
      get-update_all id samples (update sample s) b (update-length sample s h)
      ∙ ap (λ found. latest id found samples) (get-update id sample s b h)
