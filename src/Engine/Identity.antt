-- ===== src/Engine/Identity.antt =====
-- engine_service.cpp: tokens of a clear, and the identity of a vehicle that a clear is bound to.
use rev_dash.Prelude.{
  ℕ, ◌/◌, ◌%◌, Bool, true, false, Option, none, some, List, [], ◌∷◌, ◌++◌, ◌==◌, ltb, if◌then◌else◌,
  length, get_or,
}
use rev_dash.Core.Diagnostics.{Text, text_beq, EcuMetadata}
use rev_dash.Protocol.Diagnostics.Dtc.{hex_digits}

-- `makeConfirmationToken`: eight digits of base 16 for each of four words of `std::random_device`.
abbrev pub word_text : ℕ → Text
word_text w =
    get_or hex_digits (w / 0x1000_0000 % 16) 0
    ∷ get_or hex_digits (w / 0x100_0000 % 16) 0
    ∷ get_or hex_digits (w / 0x10_0000 % 16) 0
    ∷ get_or hex_digits (w / 0x1_0000 % 16) 0
    ∷ get_or hex_digits (w / 0x1000 % 16) 0
    ∷ get_or hex_digits (w / 0x100 % 16) 0
    ∷ get_or hex_digits (w / 0x10 % 16) 0
    ∷ get_or hex_digits (w % 16) 0
    ∷ []

unfoldable pub make_confirmation_token : List ℕ → Text
make_confirmation_token [] = []
make_confirmation_token (w ∷ ws) = word_text w ++ make_confirmation_token ws

-- `operator<` of `std::string`
unfoldable pub text_less : Text → Text → Bool
text_less [] [] = false
text_less [] (y ∷ ys) = true
text_less (x ∷ xs) [] = false
text_less (x ∷ xs) (y ∷ ys) = if x == y then text_less xs ys else ltb x y

-- `std::sort` and `std::unique`, by insertion
unfoldable pub insert_vin : Text → List Text → List Text
unfolding text_less
insert_vin v [] = v ∷ []
insert_vin v (w ∷ ws) =
    let rest = insert_vin v ws in
    if text_less v w then v ∷ w ∷ ws else if text_beq v w then w ∷ ws else w ∷ rest

unfoldable pub vins_of : List EcuMetadata → List Text
unfolding insert_vin
vins_of [] = []
vins_of (m ∷ ms) = if length m.vin == 0 then vins_of ms else insert_vin m.vin (vins_of ms)

unfoldable pub join_vins : List Text → Text
join_vins [] = []
join_vins (v ∷ []) = v
join_vins (v ∷ w ∷ ws) = v ++ b'|' ∷ join_vins (w ∷ ws)

-- `currentVehicleIdentity`
unfoldable pub current_vehicle_identity : List EcuMetadata → Option Text
unfolding vins_of join_vins
current_vehicle_identity metadata =
    if length (vins_of metadata) == 0 then none else some (join_vins (vins_of metadata))
