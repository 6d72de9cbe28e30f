-- ===== src/Drivers/Prompt.antt =====
-- drivers/elm327.hpp and elm327.cpp: the parser of what the adapter sends, up to its prompt.
pub mod Chunks
pub mod Answers
mod Tests
use rev_dash.Prelude.{
  ℕ, ◌-◌, Bool, true, false, ◌&&◌, ◌||◌, List, [], ◌∷◌, ◌++◌, leb, ◌==◌, if◌then◌else◌, length,
}
use rev_dash.Core.Diagnostics.{Text, text_beq}

pub data ElmResponseStatus : Type 0 where
  success no_data searching bus_init_error unable_to_connect stopped unsupported_command malformed :
      ElmResponseStatus

pub record ElmResponse : Type 0 where
  pub status : ElmResponseStatus
  pub lines : List Text

pub record ElmPromptParser : Type 0 where
  pub current_line : Text
  pub lines : List Text

-- `std::isspace` of the C locale
abbrev pub is_space : ℕ → Bool
is_space c = c == 0x20 || leb 0x09 c && leb c 0x0d

abbrev pub drop_spaces : Text → Text
drop_spaces [] = []
drop_spaces (c ∷ cs) = if is_space c then drop_spaces cs else c ∷ cs

-- The text up to its last character that is no space.
abbrev pub drop_last_spaces : Text → Text
drop_last_spaces [] = []
drop_last_spaces (c ∷ cs) =
    let rest = drop_last_spaces cs in if is_space c && length rest == 0 then [] else c ∷ rest

unfoldable pub trim : Text → Text
trim value = drop_last_spaces (drop_spaces value)

-- `std::toupper` of the C locale, for every character
abbrev pub upper : Text → Text
upper [] = []
upper (c ∷ cs) = (if leb b'a' c && leb c b'z' then c - 32 else c) ∷ upper cs

abbrev pub no_data_text : Text
no_data_text = b'N' ∷ b'O' ∷ b' ' ∷ b'D' ∷ b'A' ∷ b'T' ∷ b'A' ∷ []

abbrev pub bus_init_text : Text
bus_init_text =
    b'B' ∷ b'U' ∷ b'S' ∷ b' ' ∷ b'I' ∷ b'N' ∷ b'I' ∷ b'T' ∷ b':' ∷ b' ' ∷ b'E' ∷ b'R' ∷ b'R' ∷ b'O'
    ∷ b'R' ∷ []

abbrev pub unable_text : Text
unable_text =
    b'U' ∷ b'N' ∷ b'A' ∷ b'B' ∷ b'L' ∷ b'E' ∷ b' ' ∷ b'T' ∷ b'O' ∷ b' ' ∷ b'C' ∷ b'O' ∷ b'N' ∷ b'N'
    ∷ b'E' ∷ b'C' ∷ b'T' ∷ []

abbrev pub stopped_text : Text
stopped_text = b'S' ∷ b'T' ∷ b'O' ∷ b'P' ∷ b'P' ∷ b'E' ∷ b'D' ∷ []

abbrev pub unsupported_text : Text
unsupported_text = b'?' ∷ []

abbrev pub searching_text : Text
searching_text =
    b'S' ∷ b'E' ∷ b'A' ∷ b'R' ∷ b'C' ∷ b'H' ∷ b'I' ∷ b'N' ∷ b'G' ∷ b'.' ∷ b'.' ∷ b'.' ∷ []

-- The loop of `classify`, with its flag `searching`.
unfoldable pub classify_from : Bool → List Text → ElmResponseStatus
classify_from seen [] = if seen then ElmResponseStatus.searching else ElmResponseStatus.success
classify_from seen (line ∷ lines) =
    let value = upper line in
    let rest = classify_from (seen || text_beq value searching_text) lines in
    if text_beq value no_data_text
    then ElmResponseStatus.no_data
    else if text_beq value bus_init_text
    then ElmResponseStatus.bus_init_error
    else if text_beq value unable_text
    then ElmResponseStatus.unable_to_connect
    else if text_beq value stopped_text
    then ElmResponseStatus.stopped
    else if text_beq value unsupported_text
    then ElmResponseStatus.unsupported_command
    else rest

-- `ElmPromptParser::classify`
unfoldable pub classify : List Text → ElmResponseStatus
unfolding classify_from
classify lines = classify_from false lines

-- `lines_` with the trimmed current line, if that is not empty
unfoldable pub end_line : ElmPromptParser → List Text
unfolding trim
end_line p =
    if length (trim p.current_line) == 0 then p.lines else p.lines ++ trim p.current_line ∷ []

abbrev pub fresh : ElmPromptParser
fresh = record { current_line = []; lines = [] }

-- One round of the loop of `append`: the responses that the character completes, and the parser after.
unfoldable pub take_character : ℕ → ElmPromptParser → List ElmResponse × ElmPromptParser
unfolding end_line classify
take_character c p =
    if c == b'>'
    then (record { status = classify (end_line p); lines = end_line p } ∷ [], fresh)
    else if c == 0x0d || c == 0x0a
    then ([], record { current_line = []; lines = end_line p })
    else ([], record p { current_line = p.current_line ++ c ∷ [] })

-- `ElmPromptParser::append`
unfoldable pub append : Text → ElmPromptParser → List ElmResponse × ElmPromptParser
unfolding take_character
append [] p = ([], p)
append (c ∷ cs) p =
    let (done, q) = take_character c p in let (more, r) = append cs q in (done ++ more, r)

-- `ElmPromptParser::reset`
unfoldable pub reset : ElmPromptParser → ElmPromptParser
reset p = fresh
