-- ===== src/Workflows/Arguments.antt =====
-- How a Windows program splits its command line into arguments.
use wslpad.Workflows.{quote}
use wslpad.Base.{
  ℕ, zero, suc, ◌/◌, ◌%◌, ◌≡◌, refl, sym, ap, ◌∙◌, Bool, true, false, not, Text, List, [], ◌∷◌,
  ◌++◌, append-nil, append_assoc, has, if◌then◌else◌, ◌==◌, ==_iff, arith, Bool-cases, inl, inr,
}

-- The arguments before the current one, what it holds, the backslashes not yet placed, and whether a
-- quote is open.
pub record Splitting : Type 0 where
  pub before : List Text
  pub current : Text
  pub slashes : ℕ
  pub quoted : Bool

abbrev pub repeat_slash : ℕ → Text
repeat_slash zero = []
repeat_slash (suc n) = b'\\' ∷ repeat_slash n

-- A quote after an even number of backslashes opens or closes; after an odd number it is a unit of the
-- argument. Two backslashes before a quote count as one, and others stand for themselves.
abbrev pub step : Splitting → ℕ → Splitting
step s c =
    if c == b'\\'
    then record s { slashes = suc s.slashes }
    else if c == b'"'
    then if s.slashes % 2 == 0
      then record s {
        current = s.current ++ repeat_slash (s.slashes / 2);
        slashes = 0;
        quoted = not s.quoted;
      }
      else record s {
        current = (s.current ++ repeat_slash (s.slashes / 2)) ++ b'"' ∷ [];
        slashes = 0;
      }
    else if s.quoted
    then record s { current = (s.current ++ repeat_slash s.slashes) ++ c ∷ []; slashes = 0 }
    else if c == b' '
    then record s {
      before = s.before ++ (s.current ++ repeat_slash s.slashes) ∷ [];
      current = [];
      slashes = 0;
    }
    else record s { current = (s.current ++ repeat_slash s.slashes) ++ c ∷ []; slashes = 0 }

abbrev pub scan : Splitting → Text → Splitting
scan s [] = s
scan s (c ∷ cs) = scan (step s c) cs

unfoldable pub arguments : Text → List Text
arguments command =
    let last = scan record { before = []; current = []; slashes = 0; quoted = false } command in
    last.before ++ (last.current ++ repeat_slash last.slashes) ∷ []

-- The text does not end in a backslash; `pending` backslashes stand before it.
abbrev pub rest_slashes : ℕ → Text → ℕ
rest_slashes pending [] = pending
rest_slashes pending (c ∷ s) = rest_slashes (if c == b'\\' then suc pending else 0) s

slash_first : (n : ℕ) (v : Text) → repeat_slash (suc n) ++ v ≡ repeat_slash n ++ b'\\' ∷ v
slash_first zero v = refl
slash_first (suc n) v = ap (λ t. b'\\' ∷ t) (slash_first n v)

abbrev inside : List Text → Text → ℕ → Splitting
inside before current pending = record {
  before = before;
  current = current;
  slashes = pending;
  quoted = true;
}

abbrev pub closed : List Text → Text → Splitting
closed before current = record { before = before; current = current; slashes = 0; quoted = false }

step_slash :
    (before : List Text) (current : Text) (pending c : ℕ)
    → (c == b'\\') ≡ true
    → step (inside before current pending) c ≡ inside before current (suc pending)
step_slash before current pending c e = rw e refl

step_other :
    (before : List Text) (current : Text) (pending c : ℕ)
    → (c == b'\\') ≡ false
    → (c == b'"') ≡ false
    → step (inside before current pending) c
      ≡ inside before ((current ++ repeat_slash pending) ++ c ∷ []) 0
step_other before current pending c e f = rw (e, f) refl

-- Between quotes, a text without a quote stands for itself.
scan-inside :
    (before : List Text) (v current rest : Text) (pending : ℕ)
    → has b'"' v ≡ false
    → rest_slashes pending v ≡ 0
    → scan (inside before current pending) (v ++ b'"' ∷ rest)
      ≡ scan (closed before (current ++ (repeat_slash pending ++ v))) rest
scan-inside before [] current rest pending h k = rw (k, append-nil (repeat_slash 0)) refl
scan-inside before (c ∷ v) current rest pending h k = elim (Bool-cases (c == b'\\')) [
  | inl e ↦
      let rest_free : has b'"' v ≡ false = ground (arith, h) in
      let later : rest_slashes (suc pending) v ≡ 0 = rw e at k in
      ap (λ t. scan t (v ++ b'"' ∷ rest)) (step_slash before current pending c e)
      ∙ (scan-inside before v current rest (suc pending) rest_free later
          ∙ ap (λ t. scan (closed before (current ++ t)) rest)
              (slash_first pending v
                ∙ ap (λ d. repeat_slash pending ++ d ∷ v) (sym ((==_iff c b'\\').0 e))))
  | inr n ↦
      let bare : (c == b'"') ≡ false = ground (arith, h) in
      let rest_free : has b'"' v ≡ false = ground (arith, h) in
      let later : rest_slashes 0 v ≡ 0 = rw n at k in
      ap (λ t. scan t (v ++ b'"' ∷ rest)) (step_other before current pending c n bare)
      ∙ (scan-inside before v ((current ++ repeat_slash pending) ++ c ∷ []) rest 0 rest_free later
          ∙ ap (λ t. scan (closed before t) rest)
              (append_assoc (current ++ repeat_slash pending) (c ∷ []) v
                ∙ append_assoc current (repeat_slash pending) (c ∷ v)))
]

-- Inside quotes the text is read as it stands, and the quote after it closes.
abbrev pub IsWord : Text → Type 0
IsWord v = (has b'"' v ≡ false) × (rest_slashes 0 v ≡ 0)

pub scan-quoted :
    (before : List Text) (v rest : Text)
    → IsWord v
    → scan (closed before []) (quote v ++ rest) ≡ scan (closed before v) rest
scan-quoted before v rest (h, k) =
    ap (scan (inside before [] 0)) (append_assoc v (b'"' ∷ []) rest)
    ∙ scan-inside before v [] rest 0 h k

pub scan-separated :
    (before : List Text) (v rest : Text)
    → IsWord v
    → scan (closed before []) (quote v ++ b' ' ∷ rest) ≡ scan (closed (before ++ v ∷ []) []) rest
scan-separated before v rest h =
    scan-quoted before v (b' ' ∷ rest) h
    ∙ ap (λ t. scan (closed (before ++ t ∷ []) []) rest) (append-nil v)
