-- ===== src/Drivers/Prompt/Chunks.antt =====
-- The prompt parser of elm327.cpp on bytes that arrive in chunks.
use rev_dash.Prelude.{
  ℕ, ◌≡◌, ◌≢◌, refl, sym, ap, ◌∙◌, inl, inr, false, ◌||◌, List, [], ◌∷◌, ◌++◌, arith, ◌==◌, length,
  All, All-append, Bool-cases,
}
use mathlib.Core.List.{append_assoc}
use rev_dash.Core.Diagnostics.{Text}
use rev_dash.Drivers.Prompt.{
  ElmResponse, ElmPromptParser, trim, end_line, classify, take_character, append,
}

-- What the chunks give one after another.
unfoldable pub append_all : List Text → ElmPromptParser → List ElmResponse × ElmPromptParser
append_all [] p = ([], p)
append_all (c ∷ cs) p =
    let (done, q) = append c p in let (more, r) = append_all cs q in (done ++ more, r)

abbrev pub joined : List Text → Text
joined [] = []
joined (c ∷ cs) = c ++ joined cs

pair_eq : {x y : List ElmResponse × ElmPromptParser} → x.0 ≡ y.0 → x.1 ≡ y.1 → x ≡ y
pair_eq e f = λ i. (e i, f i)

append-append :
    (xs ys : Text) (p : ElmPromptParser)
    → append (xs ++ ys) p
      ≡ ((append xs p).0 ++ (append ys (append xs p).1).0, (append ys (append xs p).1).1)
unfolding append
append-append [] ys p = refl
append-append (x ∷ xs) ys p =
    let rest = append-append xs ys (take_character x p).1 in
    pair_eq
      (ap (λ o. (take_character x p).0 ++ o.0) rest
        ∙ sym (
            append_assoc (take_character x p).0 (append xs (take_character x p).1).0
              (append ys (append xs (take_character x p).1).1).0))
      (ap (λ o. o.1) rest)

-- Bytes that arrive in any chunks yield the responses, and leave the parser in the state, that they
-- yield when they arrive at once.
pub append_all-joined :
    (chunks : List Text) (p : ElmPromptParser) → append_all chunks p ≡ append (joined chunks) p
unfolding append_all append
append_all-joined [] p = refl
append_all-joined (c ∷ cs) p =
    let rest = append_all-joined cs (append c p).1 in
    pair_eq (ap (λ o. (append c p).0 ++ o.0) rest) (ap (λ o. o.1) rest)
    ∙ sym (append-append c (joined cs) p)

abbrev pub IsFilled : Text → Type 0
IsFilled line = length line ≢ 0

abbrev pub AreFilled : ElmResponse → Type 0
AreFilled r = All IsFilled r.lines × (r.status ≡ classify r.lines)

end_line-All : (p : ElmPromptParser) → All IsFilled p.lines → All IsFilled (end_line p)
unfolding end_line
end_line-All p h = elim (Bool-cases (length (trim p.current_line) == 0)) [
  | inl y ↦ rw y h
  | inr n ↦ rw n (All-append IsFilled p.lines _ h ((λ e. filled n e), tt))
]
  where
    filled : (length (trim p.current_line) == 0) ≡ false → IsFilled (trim p.current_line)
    filled n e = ground arith

take_character-All :
    (c : ℕ) (p : ElmPromptParser)
    → All IsFilled p.lines
    → All AreFilled (take_character c p).0 × All IsFilled (take_character c p).1.lines
unfolding take_character
take_character-All c p h = elim (Bool-cases (c == b'>')) [
  | inl y ↦ rw y (((end_line-All p h, refl), tt), tt)
  | inr n ↦ rw n (elim (Bool-cases (c == 0x0d || c == 0x0a)) [
    | inl y ↦ rw y (tt, end_line-All p h)
    | inr m ↦ rw m (tt, h)
  ])
]

-- Whatever bytes arrive, every response is the classification of its lines and has no empty line, if
-- none of the lines collected before was empty.
pub append-AreFilled :
    (bytes : Text) (p : ElmPromptParser)
    → All IsFilled p.lines
    → All AreFilled (append bytes p).0 × All IsFilled (append bytes p).1.lines
unfolding append
append-AreFilled [] p h = (tt, h)
append-AreFilled (c ∷ cs) p h =
    let here = take_character-All c p h in
    let rest = append-AreFilled cs (take_character c p).1 here.1 in
    (All-append AreFilled (take_character c p).0 _ here.0 rest.0, rest.1)
