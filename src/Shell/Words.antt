-- ===== src/Shell/Words.antt =====
-- How a POSIX shell splits a command line into literal words. A line that holds anything active (an
-- expansion, an operator, a comment, an open quotation) has no such reading.
use wslpad.Base.{ℕ, Bool, ◌||◌, Text, List, [], ◌∷◌, ◌++◌, ◌==◌, Option, none, some, any}

pub data Mode : Type 0 where
  between : Mode
  word : Text → Mode
  quoted : Text → Mode
  escaped : Text → Mode

abbrev pub is_blank : ℕ → Bool
is_blank c = c == b' ' || c == 9

-- Units with a meaning of their own outside quotes. A tilde, a brace or an assignment is active in
-- some positions, and counts as active in all.
abbrev pub active : Text
active =
    b'$' ∷ b'`' ∷ b'"' ∷ b'|' ∷ b'&' ∷ b';' ∷ b'<' ∷ b'>' ∷ b'(' ∷ b')' ∷ b'*' ∷ b'?' ∷ b'[' ∷ b']'
    ∷ b'#' ∷ b'~' ∷ b'=' ∷ b'%' ∷ b'!' ∷ b'{' ∷ b'}' ∷ 10 ∷ []

unfoldable pub is_active : ℕ → Bool
is_active c = any (λ a. c == a) active

abbrev emit : Text → Option (List Text) → Option (List Text)
emit w none = none
emit w (some ws) = some (w ∷ ws)

unfoldable pub lex : Mode → Text → Option (List Text)
lex between [] = some []
lex (word w) [] = some (w ∷ [])
lex (quoted w) [] = none
lex (escaped w) [] = none
lex between (c ∷ s) = elim (c == 39) [
  | Bool.true ↦ lex (quoted []) s
  | Bool.false ↦ elim (c == 92) [
    | Bool.true ↦ lex (escaped []) s
    | Bool.false ↦ elim (is_blank c) [
      | Bool.true ↦ lex between s
      | Bool.false ↦ elim (is_active c) [ Bool.true ↦ none | Bool.false ↦ lex (word (c ∷ [])) s ]
    ]
  ]
]
lex (word w) (c ∷ s) = elim (c == 39) [
  | Bool.true ↦ lex (quoted w) s
  | Bool.false ↦ elim (c == 92) [
    | Bool.true ↦ lex (escaped w) s
    | Bool.false ↦ elim (is_blank c) [
      | Bool.true ↦ emit w (lex between s)
      | Bool.false ↦ elim (is_active c) [
        | Bool.true ↦ none
        | Bool.false ↦ lex (word (w ++ c ∷ [])) s
      ]
    ]
  ]
]
lex (quoted w) (c ∷ s) = elim (c == 39) [
  | Bool.true ↦ lex (word w) s
  | Bool.false ↦ lex (quoted (w ++ c ∷ [])) s
]
-- A backslash before a newline joins the lines.
lex (escaped w) (c ∷ s) = elim (c == 10) [
  | Bool.true ↦ lex (word w) s
  | Bool.false ↦ lex (word (w ++ c ∷ [])) s
]

unfoldable pub words : Text → Option (List Text)
unfolding lex
words line = lex between line
