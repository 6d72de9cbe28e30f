-- ===== src/Core/Tests.antt =====
-- The theorems on messages at concrete inputs.
use rev_dash.Prelude.{◌≡◌, none, [], ◌∷◌, arith}
use rev_dash.Core.Error.{ok}
use rev_dash.Core.Types.{synthetic, ObdMessage, create_message}
use rev_dash.Core.Types.Message.{Carries, create_message-Carries}

create_message-Carries_example :
    (m : ObdMessage) × (create_message synthetic none (0x41 ∷ 0x0d ∷ 90 ∷ []) 7 100 none ≡ ok m)
    × Carries synthetic none (0x41 ∷ 0x0d ∷ 90 ∷ []) 7 100 none m
create_message-Carries_example =
    create_message-Carries synthetic none (0x41 ∷ 0x0d ∷ 90 ∷ []) 7 100 none (omega arith)
