-- ===== src/Protocol/Mode01/Queries.antt =====
-- Which PIDs `buildMode01QueryFilter` of mode01.cpp asks for.
use rev_dash.Prelude.{
  ℕ, ◌≡◌, refl, ◌⊎◌, inl, inr, Bool, true, false, not, ◌&&◌, List, [], ◌∷◌, if◌then◌else◌, All,
}
use rev_dash.Core.Types.{ObdRequest, obd_request}
use rev_dash.Core.Float.{Float}
use rev_dash.Protocol.Mode01.Catalog.{Mode01PidDescriptor, catalog}
use rev_dash.Protocol.Mode01.Decode.{is_bitmap_pid}
use rev_dash.Protocol.Mode01.Support.{
  SupportedMode01Pids, filter_entries, build_mode01_query_filter,
}

-- Some request asks for this PID.
abbrev pub Asks : List ObdRequest → ℕ → Type 0
Asks [] pid = ⊥
Asks (r ∷ rs) pid = (r.pid ≡ pid) ⊎ Asks rs pid

module _ {F : Type 0} (fl : Float F) where
  -- Some entry describes this PID.
  abbrev pub Covers : List (Mode01PidDescriptor fl) → ℕ → Type 0
  Covers [] pid = ⊥
  Covers (d ∷ ds) pid = (d.pid ≡ pid) ⊎ Covers ds pid

  -- A request asks for current data of a PID that an entry describes and that is supported and no
  -- bitmap.
  pub record IsQuery (supported : SupportedMode01Pids) (ds : List (Mode01PidDescriptor fl))
      (r : ObdRequest) : Type 0 where
    pub mode : r.mode ≡ 1
    pub covered : Covers ds r.pid
    pub is_supported : supported r.pid ≡ true
    pub no_bitmap : is_bitmap_pid r.pid ≡ false

  All-covered :
      (supported : SupportedMode01Pids) (d : Mode01PidDescriptor fl)
      (ds : List (Mode01PidDescriptor fl)) (rs : List ObdRequest)
      → All (IsQuery supported ds) rs
      → All (IsQuery supported (d ∷ ds)) rs
  All-covered supported d ds [] h = tt
  All-covered supported d ds (r ∷ rs) h = (
    record {
      mode = h.0.mode;
      covered = inr h.0.covered;
      is_supported = h.0.is_supported;
      no_bitmap = h.0.no_bitmap;
    },
    All-covered supported d ds rs h.1,
  )

  -- The entry is asked for, if it is to be.
  abbrev pub IsAsked : SupportedMode01Pids → List ObdRequest → Mode01PidDescriptor fl → Type 0
  IsAsked supported rs d = supported d.pid ≡ true → is_bitmap_pid d.pid ≡ false → Asks rs d.pid

  All-weaken :
      (supported : SupportedMode01Pids) (r : ObdRequest) (rs : List ObdRequest)
      (ds : List (Mode01PidDescriptor fl))
      → All (IsAsked supported rs) ds
      → All (IsAsked supported (r ∷ rs)) ds
  All-weaken supported r rs [] h = tt
  All-weaken supported r rs (d ∷ ds) h = ((λ s b. inr (h.0 s b)), All-weaken supported r rs ds h.1)

  after_lem :
      (supported : SupportedMode01Pids) (d : Mode01PidDescriptor fl)
      (ds : List (Mode01PidDescriptor fl)) (rs : List ObdRequest) (bitmap known : Bool)
      → is_bitmap_pid d.pid ≡ bitmap
      → supported d.pid ≡ known
      → All (IsQuery supported ds) rs
      → All (IsAsked supported rs) ds
      → All
          (IsQuery supported (d ∷ ds))
          (if not bitmap && known then obd_request 0x01 d.pid ∷ rs else rs)
        × All
            (IsAsked supported (if not bitmap && known then obd_request 0x01 d.pid ∷ rs else rs))
            (d ∷ ds)
  after_lem supported d ds rs true known b s q a =
      (All-covered supported d ds rs q, (λ t n. absurd cc, a))
  after_lem supported d ds rs false false b s q a =
      (All-covered supported d ds rs q, (λ t n. absurd cc, a))
  after_lem supported d ds rs false true b s q a = (
    (
      record { mode = refl; covered = inl refl; is_supported = s; no_bitmap = b },
      All-covered supported d ds rs q,
    ),
    ((λ _ _. inl refl), All-weaken supported (obd_request 0x01 d.pid) rs ds a),
  )

  filter_entries_lem :
      (supported : SupportedMode01Pids) (ds : List (Mode01PidDescriptor fl))
      → All (IsQuery supported ds) (filter_entries fl supported ds)
        × All (IsAsked supported (filter_entries fl supported ds)) ds
  unfolding filter_entries
  filter_entries_lem supported [] = (tt, tt)
  filter_entries_lem supported (d ∷ ds) =
      let rest = filter_entries_lem supported ds in
      after_lem supported d ds (filter_entries fl supported ds) _ _ refl refl rest.0 rest.1

  -- Every request of the query filter asks for current data of a supported PID of the catalogue that is
  -- no bitmap, and every such PID is asked for.
  pub build_mode01_query_filter_lem :
      (supported : SupportedMode01Pids)
      → All (IsQuery supported (catalog fl)) (build_mode01_query_filter fl supported)
        × All (IsAsked supported (build_mode01_query_filter fl supported)) (catalog fl)
  unfolding build_mode01_query_filter
  build_mode01_query_filter_lem supported = filter_entries_lem supported (catalog fl)
