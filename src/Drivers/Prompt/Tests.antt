-- ===== src/Drivers/Prompt/Tests.antt =====
-- Runs of the prompt parser, and its theorems at concrete inputs.
use rev_dash.Prelude.{◌≡◌, refl, List, [], ◌∷◌, All, map}
use rev_dash.Core.Diagnostics.{Text, text_beq}
use rev_dash.Drivers.Prompt.{
  ElmResponse, ElmResponseStatus, fresh, append, take_character, end_line, trim, classify,
  classify_from,
}
use rev_dash.Drivers.Prompt.Answers.{IsLine, response_of, append_all-printed_all}
use rev_dash.Drivers.Prompt.Chunks.{append_all, joined, IsFilled, AreFilled, append-AreFilled}

-- "STO", "PPED" and a carriage return with the prompt
abbrev chunks : List Text
chunks = (b'S' ∷ b'T' ∷ b'O' ∷ []) ∷ (b'P' ∷ b'P' ∷ b'E' ∷ b'D' ∷ []) ∷ (0x0d ∷ b'>' ∷ []) ∷ []

abbrev stopped_answer : ElmResponse
stopped_answer = record {
  status = ElmResponseStatus.stopped;
  lines = (b'S' ∷ b'T' ∷ b'O' ∷ b'P' ∷ b'P' ∷ b'E' ∷ b'D' ∷ []) ∷ [];
}

append-stopped : append (joined chunks) fresh ≡ (stopped_answer ∷ [], fresh)
unfolding append take_character end_line trim classify classify_from text_beq
append-stopped = refl

abbrev stopped_line : Text
stopped_line = b'S' ∷ b'T' ∷ b'O' ∷ b'P' ∷ b'P' ∷ b'E' ∷ b'D' ∷ []

stopped_line-IsLine : IsLine stopped_line
unfolding trim
stopped_line-IsLine = record {
  filled = refl;
  trimmed = refl;
  inner = (
    (refl, refl),
    (
      (refl, refl),
      ((refl, refl), ((refl, refl), ((refl, refl), ((refl, refl), ((refl, refl), tt))))),
    ),
  );
}

append_all-printed_all_example :
    append_all chunks fresh ≡ (map response_of ((stopped_line ∷ []) ∷ []), fresh)
append_all-printed_all_example =
    append_all-printed_all ((stopped_line ∷ []) ∷ []) chunks ((stopped_line-IsLine, tt), tt) refl

append-AreFilled_example :
    All AreFilled (append (joined chunks) fresh).0
    × All IsFilled (append (joined chunks) fresh).1.lines
append-AreFilled_example = append-AreFilled (joined chunks) fresh tt
