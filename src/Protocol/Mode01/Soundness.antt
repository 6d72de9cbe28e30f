-- ===== src/Protocol/Mode01/Soundness.antt =====
-- What an accepted Mode 01 response of mode01.cpp was.
use rev_dash.Prelude.{
  ℕ, ◌+◌, ◌≡◌, ◌≢◌, ◌≤◌, refl, sym, ◌∙◌, ◌⊎◌, inl, inr, true, false, none, some, List, [], ◌∷◌,
  arith, ◌==◌, ==_iff, length, get_or, drop, All, Bool-cases, Option-cases, length-drop,
}
use rev_dash.Core.Error.{Error, Result, Result-cases, ok, err}
use rev_dash.Core.Types.{ObdMessage, payload_of}
use rev_dash.Core.Telemetry.{TelemetrySample}
use rev_dash.Core.Float.{Float}
use rev_dash.Protocol.Mode01.Catalog.{Mode01PidDescriptor}
use rev_dash.Protocol.Mode01.Decode.{
  is_bitmap_pid, check_header, find_mode01_pid_descriptor, decode_described, decode_mode01_response,
  call_decoder, check_front, out_of_bounds,
}
use rev_dash.Protocol.Mode01.Entries.{IsFrom, AreFrom, IsEntry, entry_lem}

module _ {F : Type 0} (fl : Float F) where
  -- What a success of the decoder says of the message `m`, the requested PID and the samples.
  pub record Describes (m : ObdMessage) (pid : ℕ) (ss : List (TelemetrySample F)) : Type 0 where
    pub descriptor : Mode01PidDescriptor fl
    pub catalogued : find_mode01_pid_descriptor fl pid ≡ some descriptor
    pub service : get_or (payload_of m) 0 0 ≡ 0x41
    pub echo : get_or (payload_of m) 1 0 ≡ pid
    pub size : length (payload_of m) ≡ 2 + descriptor.expected_data_length
    pub origin : All (IsFrom m) ss
    pub front :
        (is_bitmap_pid pid ≡ true) × (ss ≡ [])
        ⊎ ((s : TelemetrySample F) × (rest : List (TelemetrySample F)) × (ss ≡ s ∷ rest)
            × (out_of_bounds fl descriptor s.value ≡ false))

  front_lem :
      (m : ObdMessage) (d : Mode01PidDescriptor fl) (r : Result (List (TelemetrySample F)))
      (ss : List (TelemetrySample F))
      → AreFrom m r
      → check_front fl d r ≡ ok ss
      → All (IsFrom m) ss
        × ((s : TelemetrySample F) × (rest : List (TelemetrySample F)) × (ss ≡ s ∷ rest)
            × (out_of_bounds fl d s.value ≡ false))
  unfolding check_front
  front_lem m d (err x) ss h e = cc
  front_lem m d (ok []) ss h e = cc
  front_lem m d (ok (s ∷ rest)) ss h e = elim (Bool-cases (out_of_bounds fl d s.value)) [
    | inl out ↦ absurd (ground arith)
    | inr fine ↦ let same : s ∷ rest ≡ ss = ground arith in rw (← same) (h, (s, rest, refl, fine))
  ]

  described_lem :
      (m : ObdMessage) (pid : ℕ) (d : Mode01PidDescriptor fl) (ss : List (TelemetrySample F))
      → find_mode01_pid_descriptor fl pid ≡ some d
      → get_or (payload_of m) 0 0 ≡ 0x41
      → get_or (payload_of m) 1 0 ≡ pid
      → 2 ≤ length (payload_of m)
      → IsEntry fl d
      → decode_described fl m pid (some d) ≡ some (ok ss)
      → Describes m pid ss
  unfolding decode_described call_decoder
  described_lem m pid d ss f s p l entry e =
      elim (Bool-cases (length bytes == d.expected_data_length)) [
        | inr other ↦ absurd (ground arith)
        | inl size ↦ elim (Bool-cases (is_bitmap_pid pid)) [
          | inl bitmap ↦
              let nothing : ss ≡ [] = ground arith in
              rw nothing (described (long size) tt (inl (bitmap, refl)))
          | inr plain ↦ elim (Option-cases d.decoder) [
            | inl null ↦ absurd (ground arith)
            | inr (g, is) ↦
                let got : check_front fl d (g bytes m) ≡ ok ss = ground arith in
                let parts = front_lem m d (g bytes m) ss ((rw is at entry.0) bytes m) got in
                described (long size) parts.0 (inr parts.1)
          ]
        ]
      ]
    where
      bytes : List ℕ
      bytes = drop 2 (payload_of m)

      long :
          (length bytes == d.expected_data_length) ≡ true
          → length (payload_of m) ≡ 2 + d.expected_data_length
      long h =
          omega (
            arith,
            (==_iff (length bytes) d.expected_data_length).0 h,
            length-drop 2 (payload_of m),
          )

      described :
          {ts : List (TelemetrySample F)}
          → length (payload_of m) ≡ 2 + d.expected_data_length
          → All (IsFrom m) ts
          → (is_bitmap_pid pid ≡ true) × (ts ≡ [])
            ⊎ ((s : TelemetrySample F) × (rest : List (TelemetrySample F)) × (ts ≡ s ∷ rest)
                × (out_of_bounds fl d s.value ≡ false))
          → Describes m pid ts
      described h o c = record {
        descriptor = d;
        catalogued = f;
        service = s;
        echo = p;
        size = h;
        origin = o;
        front = c;
      }

  uncatalogued_lem :
      (m : ObdMessage) (pid : ℕ) (ss : List (TelemetrySample F))
      → decode_described fl m pid none ≢ some (ok ss)
  unfolding decode_described
  uncatalogued_lem m pid ss e = cc

  uncatalogued-defined :
      (m : ObdMessage) (pid : ℕ)
      → (r : Result (List (TelemetrySample F))) × (decode_described fl m pid none ≡ some r)
  unfolding decode_described
  uncatalogued-defined m pid = (_, refl)

  described-defined :
      (m : ObdMessage) (pid : ℕ) (d : Mode01PidDescriptor fl)
      → IsEntry fl d
      → d.pid ≡ pid
      → (r : Result (List (TelemetrySample F))) × (decode_described fl m pid (some d) ≡ some r)
  unfolding decode_described call_decoder
  described-defined m pid d entry same =
      elim (Bool-cases (length (drop 2 (payload_of m)) == d.expected_data_length)) [
        | inr other ↦ rw other (_, refl)
        | inl size ↦ rw size (elim (Bool-cases (is_bitmap_pid pid)) [
          | inl bitmap ↦ rw bitmap (ok [], refl)
          | inr plain ↦ rw plain (elim (Option-cases d.decoder) [
            | inl null ↦ absurd (ground (arith, entry.1))
            | inr (g, is) ↦ rw is (_, refl)
          ])
        ])
      ]

  -- The header tests have passed.
  abbrev Headed : ObdMessage → ℕ → Type 0
  Headed m pid =
      (get_or (payload_of m) 0 0 ≡ 0x41)
      × (get_or (payload_of m) 1 0 ≡ pid)
      × (2 ≤ length (payload_of m))

  check_header-Headed : (m : ObdMessage) (pid : ℕ) → check_header m pid ≡ ok tt → Headed m pid
  unfolding check_header
  check_header-Headed m pid e = ground arith

  -- A response that fails a header test is an error; another is decoded by its descriptor.
  decode_mode01_response-cases :
      (m : ObdMessage) (pid : ℕ)
      → ((e : Error) × (decode_mode01_response fl m pid ≡ some (err e)))
        ⊎ (Headed m pid
            × (decode_mode01_response fl m pid
                ≡ decode_described fl m pid (find_mode01_pid_descriptor fl pid)))
  unfolding decode_mode01_response
  decode_mode01_response-cases m pid = elim (Result-cases (check_header m pid)) [
    | inl (t, e) ↦ inr (check_header-Headed m pid e, rw (e, decode_mode01_response))
    | inr (x, e) ↦ inl (x, rw (e, decode_mode01_response))
  ]

  -- Every accepted response was a positive Mode 01 response that echoes the requested PID, of a
  -- catalogued PID and of exactly the length that the catalogue gives for it. All of its samples are
  -- valid and bear the message's times, sequence number and ECU. There are none for a bitmap PID;
  -- for any other there is one at least, and the first lies within the bounds of the catalogue.
  pub decode_mode01_response-Describes :
      (m : ObdMessage) (pid : ℕ) (ss : List (TelemetrySample F))
      → decode_mode01_response fl m pid ≡ some (ok ss)
      → Describes m pid ss
  decode_mode01_response-Describes m pid ss e = elim (decode_mode01_response-cases m pid) [
    | inl (x, bad) ↦ absurd (ground arith)
    | inr ((s, p, l), d) ↦ elim (Option-cases (find_mode01_pid_descriptor fl pid)) [
      | inl missing ↦ absurd (uncatalogued_lem m pid ss (rw missing at (sym d ∙ e)))
      | inr (x, found) ↦
          described_lem m pid x ss found s p l (entry_lem fl pid x found).0
            (rw found at (sym d ∙ e))
    ]
  ]

  -- The decoder never calls through a null pointer: every message and PID has a result or an error.
  pub decode_mode01_response-defined :
      (m : ObdMessage) (pid : ℕ)
      → (r : Result (List (TelemetrySample F))) × (decode_mode01_response fl m pid ≡ some r)
  decode_mode01_response-defined m pid = elim (decode_mode01_response-cases m pid) [
    | inl (x, bad) ↦ (err x, bad)
    | inr (_, d) ↦ elim (Option-cases (find_mode01_pid_descriptor fl pid)) [
      | inl missing ↦ rw (d, missing) (uncatalogued-defined m pid)
      | inr (x, found) ↦
          let known = entry_lem fl pid x found in
          rw (d, found) (described-defined m pid x known.0 known.1)
    ]
  ]
