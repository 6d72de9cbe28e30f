-- ===== src/Protocol/Mode01/Entries.antt =====
-- The catalogue of mode01.cpp: what its decoders stamp on samples, and which entries have one.
use rev_dash.Prelude.{
  ℕ, ◌≡◌, ◌≢◌, refl, ◌⊎◌, inl, inr, true, Option, none, some, List, [], ◌∷◌, ◌==◌, ==_iff, All,
  Bool-cases,
}
use rev_dash.Core.Error.{Result, ok, err}
use rev_dash.Core.Types.{ObdMessage}
use rev_dash.Core.Telemetry.{TelemetrySample, SampleQuality, MetricId}
use rev_dash.Core.Float.{Float}
use rev_dash.Protocol.Mode01.Catalog.{
  Mode01Decoder, Mode01PidDescriptor, catalog, sample_of, single,
}
use rev_dash.Protocol.Mode01.Decode.{is_bitmap_pid, find_pid, find_mode01_pid_descriptor}

module _ {F : Type 0} where
  -- A sample is valid and bears the times, the number and the ECU of the message.
  pub record IsFrom (m : ObdMessage) (s : TelemetrySample F) : Type 0 where
    pub quality : s.quality ≡ SampleQuality.valid
    pub monotonic_ts : s.monotonic_ts ≡ m.monotonic_ts
    pub utc_ts : s.utc_ts ≡ m.utc_ts
    pub sequence_number : s.sequence_number ≡ m.sequence_number
    pub ecu_address : s.ecu_address ≡ m.ecu_address

  abbrev pub AreFrom : ObdMessage → Result (List (TelemetrySample F)) → Type 0
  AreFrom m (err e) = Unit
  AreFrom m (ok ss) = All (IsFrom m) ss

module _ {F : Type 0} (fl : Float F) where
  abbrev pub Stamps : Option (Mode01Decoder fl) → Type 0
  Stamps none = Unit
  Stamps (some f) = (bytes : List ℕ) (m : ObdMessage) → AreFrom m (f bytes m)

  pub from : (m : ObdMessage) (id : MetricId) (x : F) → IsFrom m (sample_of fl id x m)
  unfolding sample_of
  from m id x = record {
    quality = refl;
    monotonic_ts = refl;
    utc_ts = refl;
    sequence_number = refl;
    ecu_address = refl;
  }

  -- The decoder of an entry stamps its samples, and only bitmap entries have none.
  abbrev pub IsEntry : Mode01PidDescriptor fl → Type 0
  IsEntry d = Stamps d.decoder × ((is_bitmap_pid d.pid ≡ true) ⊎ (d.decoder ≢ none))

  pub catalog-IsEntry : All IsEntry (catalog fl)
  unfolding catalog single
  catalog-IsEntry = (
    (tt, inl refl),
    (
      (λ b m. (from m _ _, tt), inr (λ e. cc)),
      (
        (λ b m. (from m _ _, tt), inr (λ e. cc)),
        (
          (λ b m. (from m _ _, tt), inr (λ e. cc)),
          (
            (λ b m. (from m _ _, tt), inr (λ e. cc)),
            (
              (λ b m. (from m _ _, tt), inr (λ e. cc)),
              (
                (λ b m. (from m _ _, tt), inr (λ e. cc)),
                (
                  (λ b m. (from m _ _, tt), inr (λ e. cc)),
                  (
                    (λ b m. (from m _ _, tt), inr (λ e. cc)),
                    (
                      (λ b m. (from m _ _, tt), inr (λ e. cc)),
                      (
                        (λ b m. (from m _ _, tt), inr (λ e. cc)),
                        (
                          (λ b m. (from m _ _, tt), inr (λ e. cc)),
                          (
                            (λ b m. (from m _ _, tt), inr (λ e. cc)),
                            (
                              (λ b m. (from m _ _, tt), inr (λ e. cc)),
                              (
                                (λ b m. (from m _ _, tt), inr (λ e. cc)),
                                (
                                  (λ b m. (from m _ _, tt), inr (λ e. cc)),
                                  (
                                    (λ b m. (from m _ _, tt), inr (λ e. cc)),
                                    (
                                      (λ b m. (from m _ _, tt), inr (λ e. cc)),
                                      (
                                        (λ b m. (from m _ _, tt), inr (λ e. cc)),
                                        (
                                          (λ b m. (from m _ _, tt), inr (λ e. cc)),
                                          (
                                            (tt, inl refl),
                                            (
                                              (
                                                λ b m. (from m _ _, (from m _ _, tt)),
                                                inr (λ e. cc),
                                              ),
                                              (
                                                (
                                                  λ b m. (from m _ _, (from m _ _, tt)),
                                                  inr (λ e. cc),
                                                ),
                                                (
                                                  (
                                                    λ b m. (from m _ _, (from m _ _, tt)),
                                                    inr (λ e. cc),
                                                  ),
                                                  (
                                                    (
                                                      λ b m. (from m _ _, (from m _ _, tt)),
                                                      inr (λ e. cc),
                                                    ),
                                                    (
                                                      (
                                                        λ b m. (from m _ _, (from m _ _, tt)),
                                                        inr (λ e. cc),
                                                      ),
                                                      (
                                                        (
                                                          λ b m. (from m _ _, (from m _ _, tt)),
                                                          inr (λ e. cc),
                                                        ),
                                                        (
                                                          (
                                                            λ b m. (from m _ _, (from m _ _, tt)),
                                                            inr (λ e. cc),
                                                          ),
                                                          (
                                                            (
                                                            λ b m. (from m _ _, (from m _ _, tt)),
                                                            inr (λ e. cc),
                                                            ),
                                                            (
                                                            (
                                                            λ b m. (from m _ _, tt),
                                                            inr (λ e. cc),
                                                            ),
                                                            (
                                                            (
                                                            λ b m. (from m _ _, tt),
                                                            inr (λ e. cc),
                                                            ),
                                                            (
                                                            (
                                                            λ b m. (from m _ _, tt),
                                                            inr (λ e. cc),
                                                            ),
                                                            tt,
                                                            ),
                                                            ),
                                                            ),
                                                          ),
                                                        ),
                                                      ),
                                                    ),
                                                  ),
                                                ),
                                              ),
                                            ),
                                          ),
                                        ),
                                      ),
                                    ),
                                  ),
                                ),
                              ),
                            ),
                          ),
                        ),
                      ),
                    ),
                  ),
                ),
              ),
            ),
          ),
        ),
      ),
    ),
  )

  pub find_pid-All :
      (P : Mode01PidDescriptor fl → Type 0) (pid : ℕ) (ds : List (Mode01PidDescriptor fl))
      (d : Mode01PidDescriptor fl)
      → All P ds
      → find_pid fl pid ds ≡ some d
      → P d × (d.pid ≡ pid)
  unfolding find_pid
  find_pid-All P pid [] d h e = cc
  find_pid-All P pid (x ∷ ds) d h e = elim (Bool-cases (x.pid == pid)) [
    | inl hit ↦
        let found : some x ≡ some d = rw hit at e in
        let same : x ≡ d = cc in rw (← same) (h.0, (==_iff x.pid pid).0 hit)
    | inr miss ↦ find_pid-All P pid ds d h.1 (rw miss at e)
  ]

  pub find-40 : find_mode01_pid_descriptor fl 0x40 ≡ none
  unfolding find_mode01_pid_descriptor catalog
  find-40 = refl

  pub entry_lem :
      (pid : ℕ) (d : Mode01PidDescriptor fl)
      → find_mode01_pid_descriptor fl pid ≡ some d
      → IsEntry d × (d.pid ≡ pid)
  unfolding find_mode01_pid_descriptor
  entry_lem pid d e = find_pid-All IsEntry pid (catalog fl) d catalog-IsEntry e
