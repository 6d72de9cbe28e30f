-- ===== src/Drivers/Prompt/Answers.antt =====
-- The prompt parser of elm327.cpp on answers as the adapter prints them.
use rev_dash.Prelude.{
  ℕ, ◌≡◌, refl, sym, ap, ◌∙◌, false, ◌||◌, List, [], ◌∷◌, ◌++◌, map, ◌==◌, length, All,
}
use mathlib.Core.List.{append_assoc, append-nil}
use rev_dash.Core.Diagnostics.{Text}
use rev_dash.Drivers.Prompt.{
  ElmResponse, ElmPromptParser, trim, end_line, classify, take_character, append, fresh,
}
use rev_dash.Drivers.Prompt.Chunks.{append_all, joined, append_all-joined}

-- The character is no prompt and ends no line.
abbrev pub IsInner : ℕ → Type 0
IsInner c = ((c == b'>') ≡ false) × ((c == 0x0d || c == 0x0a) ≡ false)

-- A line that is not empty, with no space around it and no character that ends it.
pub record IsLine (line : Text) : Type 0 where
  pub filled : (length line == 0) ≡ false
  pub trimmed : trim line ≡ line
  pub inner : All IsInner line

-- An answer as the adapter prints it: each line with a carriage return, and the prompt.
abbrev pub printed : List Text → Text
printed [] = b'>' ∷ []
printed (line ∷ lines) = line ++ 0x0d ∷ printed lines

abbrev pub printed_all : List (List Text) → Text
printed_all [] = []
printed_all (lines ∷ answers) = printed lines ++ printed_all answers

abbrev pub response_of : List Text → ElmResponse
response_of lines = record { status = classify lines; lines = lines }

append-quiet :
    (c : ℕ) (cs : Text) (p q : ElmPromptParser)
    → take_character c p ≡ ([], q)
    → append (c ∷ cs) p ≡ append cs q
unfolding append
append-quiet c cs p q e = ap (λ o. (o.0 ++ (append cs o.1).0, (append cs o.1).1)) e

inner_character :
    (c : ℕ) (p : ElmPromptParser)
    → IsInner c
    → take_character c p ≡ ([], record p { current_line = p.current_line ++ c ∷ [] })
unfolding take_character
inner_character c p h = rw (h.0, h.1) refl

append-inner :
    (line rest : Text) (p : ElmPromptParser)
    → All IsInner line
    → append (line ++ rest) p ≡ append rest (record p { current_line = p.current_line ++ line })
append-inner [] rest p h =
    ap (λ x. append rest (record p { current_line = x })) (sym (append-nil p.current_line))
append-inner (c ∷ cs) rest p h =
    append-quiet c (cs ++ rest) p _ (inner_character c p h.0)
    ∙ append-inner cs rest (record p { current_line = p.current_line ++ c ∷ [] }) h.1
    ∙ ap (λ x. append rest (record p { current_line = x }))
        (append_assoc p.current_line (c ∷ []) cs)

line_kept :
    (line : Text) (lines : List Text)
    → IsLine line
    → end_line (record { current_line = line; lines = lines }) ≡ lines ++ line ∷ []
unfolding end_line
line_kept line lines h = rw (h.trimmed, h.filled) refl

carriage_return :
    (line : Text) (lines : List Text)
    → IsLine line
    → take_character 0x0d (record { current_line = line; lines = lines })
      ≡ ([], record { current_line = []; lines = lines ++ line ∷ [] })
unfolding take_character
carriage_return line lines h =
    ap (λ x. ([], record { current_line = []; lines = x })) (line_kept line lines h)

append-line :
    (line rest : Text) (lines : List Text)
    → IsLine line
    → append (line ++ 0x0d ∷ rest) (record { current_line = []; lines = lines })
      ≡ append rest (record { current_line = []; lines = lines ++ line ∷ [] })
append-line line rest lines h =
    append-inner line (0x0d ∷ rest) (record { current_line = []; lines = lines }) h.inner
    ∙ append-quiet 0x0d rest _ _ (carriage_return line lines h)

append-printed :
    (more kept : List Text) (rest : Text)
    → All IsLine more
    → append (printed more ++ rest) (record { current_line = []; lines = kept })
      ≡ (response_of (kept ++ more) ∷ (append rest fresh).0, (append rest fresh).1)
unfolding append take_character end_line trim
append-printed [] kept rest h =
    ap (λ x. (response_of x ∷ (append rest fresh).0, (append rest fresh).1)) (sym (append-nil kept))
append-printed (line ∷ more) kept rest h =
    ap (λ x. append x (record { current_line = []; lines = kept }))
      (append_assoc line (0x0d ∷ printed more) rest)
    ∙ append-line line (printed more ++ rest) kept h.0
    ∙ append-printed more (kept ++ line ∷ []) rest h.1
    ∙ ap (λ x. (response_of x ∷ (append rest fresh).0, (append rest fresh).1))
        (append_assoc kept (line ∷ []) more)

append-printed_all :
    (answers : List (List Text))
    → All (All IsLine) answers
    → append (printed_all answers) fresh ≡ (map response_of answers, fresh)
unfolding append
append-printed_all [] h = refl
append-printed_all (lines ∷ answers) h =
    append-printed lines [] (printed_all answers) h.0
    ∙ ap (λ o. (response_of lines ∷ o.0, o.1)) (append-printed_all answers h.1)

-- Answers of lines that are not empty, have no space around them and hold no prompt, carriage return
-- or line feed, printed one after another and received in any chunks, yield just these answers in their
-- order, each with the status of its lines, and leave the parser as a fresh one.
pub append_all-printed_all :
    (answers : List (List Text)) (chunks : List Text)
    → All (All IsLine) answers
    → joined chunks ≡ printed_all answers
    → append_all chunks fresh ≡ (map response_of answers, fresh)
append_all-printed_all answers chunks h e =
    append_all-joined chunks fresh
    ∙ ap (λ bytes. append bytes fresh) e
    ∙ append-printed_all answers h
