-- ===== src/Shell/Quote.antt =====
-- A quoted value reaches the command as it is.
use wslpad.Base.{
  ◌≡◌, refl, ◌∙◌, Text, List, [], ◌∷◌, ◌++◌, append-nil, append_assoc, some, map, join, arith,
}
use wslpad.Shell.{quote, escape_quotes, shell_quote, shell_quote_all}
use wslpad.Shell.Words.{between, word, quoted, lex, words}

lex-escape_quotes :
    (w v rest : Text) → lex (quoted w) (escape_quotes v ++ quote ∷ rest) ≡ lex (word (w ++ v)) rest
unfolding lex escape_quotes
lex-escape_quotes w [] rest = rw append-nil
lex-escape_quotes w (c ∷ v) rest =
    ground (arith, lex-escape_quotes (w ++ c ∷ []) v rest, append_assoc w (c ∷ []) v)

lex-shell_quote : (v rest : Text) → lex between (shell_quote v ++ rest) ≡ lex (word v) rest
unfolding lex shell_quote
lex-shell_quote [] rest = refl
lex-shell_quote (c ∷ v) rest = rw append_assoc (lex-escape_quotes [] (c ∷ v) rest)

lex-shell_quote_all :
    (v : Text) (vs : List Text)
    → lex between (join (b' ' ∷ []) (map shell_quote (v ∷ vs))) ≡ some (v ∷ vs)
unfolding lex join
lex-shell_quote_all v [] = rw (← append-nil (shell_quote v)) (lex-shell_quote v [])
lex-shell_quote_all v (u ∷ vs) =
    lex-shell_quote v (b' ' ∷ join (b' ' ∷ []) (map shell_quote (u ∷ vs)))
    ∙ rw (lex-shell_quote_all u vs)

-- The words of a quoted list are the list itself: whatever the values hold, the shell passes each
-- one on unchanged and interprets nothing in it.
pub words-shell_quote_all : (vs : List Text) → words (shell_quote_all vs) ≡ some vs
unfolding words shell_quote_all lex join
words-shell_quote_all [] = refl
words-shell_quote_all (v ∷ vs) = lex-shell_quote_all v vs
