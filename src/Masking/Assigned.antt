-- ===== src/Masking/Assigned.antt =====
-- The lines that give a value to a name, and that the reader of lines finds each of them.
use wslpad.Base.{
  ℕ, ◌≡◌, refl, ap, ◌∙◌, Bool, true, false, ◌||◌, Text, lit, [], ◌∷◌, ◌++◌, append_assoc, none,
  some, arith, Bool-cases, inl, inr, drop, every, has, is_empty, is_space, length, span,
  starts_with, within, ◌==◌,
}
use wslpad.Masking.{
  is_name_start, is_name_unit, after_name, named_value, after_export, env_assignment,
}

-- A letter or `_`, and those or a digit.
abbrev pub starts_word : ℕ → Bool
starts_word c = within b'A' b'Z' c || within b'a' b'z' c || c == b'_'

abbrev pub in_word : ℕ → Bool
in_word c = starts_word c || within b'0' b'9' c

abbrev pub IsName : Text → Type 0
IsName [] = ⊥
IsName (c ∷ s) = (starts_word c ≡ true) × (every in_word s ≡ true)

-- White space, with `export` and white space after it or without.
pub data IsPrefix : Text → Type 0 where
  blank : (spaces : Text) → every is_space spaces ≡ true → IsPrefix spaces
  exporting :
      (before after : Text)
      → every is_space before ≡ true
      → every is_space after ≡ true
      → is_empty after ≡ false
      → IsPrefix (before ++ (lit "export" ++ after))

-- The line gives the value to the name.
pub record Assigns (line prefix name value : Text) : Type 0 where
  pub is_line : line ≡ prefix ++ (name ++ b'=' ∷ value)
  pub is_name : IsName name
  pub is_prefix : IsPrefix prefix

span-all :
    (p : ℕ → Bool) (xs : Text) (c : ℕ) (ys : Text)
    → every p xs ≡ true
    → p c ≡ false
    → span p (xs ++ c ∷ ys) ≡ (xs, c ∷ ys)
unfolding span
span-all p [] c ys h k = rw k refl
span-all p (x ∷ xs) c ys h k =
    let here : p x ≡ true = ground (arith, h) in
    let rest = span-all p xs c ys (ground (arith, h)) k in rw (here, rest) refl

word_not_space : (c : ℕ) → in_word c ≡ true → is_space c ≡ false
unfolding is_space
word_not_space c h = ground arith

every_unit : (s : Text) → every in_word s ≡ true → every is_name_unit s ≡ true
every_unit [] h = refl
every_unit (c ∷ s) h =
    let here : is_name_unit c ≡ true = ground (arith, h) in
    let rest = every_unit s (ground (arith, h)) in rw (here, rest) refl

named_value-name :
    (name value : Text) → IsName name → named_value (name ++ b'=' ∷ value) ≡ some (name, value)
named_value-name [] value h = absurd h
named_value-name (c ∷ s) value (h, k) =
    let start : is_name_start c ≡ true = ground (arith, h) in
    let unit : is_name_unit c ≡ true = ground (arith, h) in
    let rest = every_unit s k in
    let found = span-all is_name_unit (c ∷ s) b'=' value (rw (unit, rest) refl) refl in
    rw start (ap after_name found)

equals_only : (q : ℕ) (p : Text) → has b'=' (q ∷ p) ≡ false → (b'=' == q) ≡ true → ⊥
equals_only q p k e = ground arith

-- After a part of the name there is no white space.
after_part :
    (name value p : Text)
    → every in_word name ≡ true
    → has b'=' p ≡ false
    → starts_with (name ++ b'=' ∷ value) p ≡ true
    → is_empty (span is_space (drop (length p) (name ++ b'=' ∷ value))).0 ≡ true
unfolding span starts_with is_space
after_part [] value [] h k e = refl
after_part (c ∷ s) value [] h k e = let bare = word_not_space c (ground (arith, h)) in rw bare refl
after_part [] value (q ∷ p) h k e = absurd (equals_only q p k (ground arith))
after_part (c ∷ s) value (q ∷ p) h k e =
    after_part s value p (ground (arith, h)) (ground (arith, k)) (ground (arith, e))

no_export : (name value : Text) → IsName name → after_export (name ++ b'=' ∷ value) ≡ none
unfolding lit
no_export [] value h = absurd h
no_export (c ∷ s) value (h, k) =
    let whole : every in_word (c ∷ s) ≡ true = ground (arith, h, k) in
    elim (Bool-cases (starts_with (c ∷ (s ++ b'=' ∷ value)) (lit "export"))) [
      | inl e ↦ let bare = after_part (c ∷ s) value (lit "export") whole refl e in rw (e, bare) refl
      | inr e ↦ rw e refl
    ]

IsName-head :
    (name rest : Text)
    → IsName name
    → (c : ℕ) × (s : Text) × (name ++ rest ≡ c ∷ s) × (is_space c ≡ false)
IsName-head [] rest h = absurd h
IsName-head (c ∷ s) rest (h, k) = (c, s ++ rest, refl, word_not_space c (ground (arith, h)))

span-word :
    (spaces name rest : Text)
    → every is_space spaces ≡ true
    → IsName name
    → span is_space (spaces ++ (name ++ rest)) ≡ (spaces, name ++ rest)
span-word spaces name rest h k =
    let (c, s, e, bare) = IsName-head name rest k in rw e (span-all is_space spaces c s h bare)

blank_assignment :
    (spaces name value : Text)
    → every is_space spaces ≡ true
    → IsName name
    → env_assignment (spaces ++ (name ++ b'=' ∷ value)) ≡ some (spaces, name, value)
unfolding env_assignment lit
blank_assignment spaces name value h k =
    rw
      (
        span-word spaces name (b'=' ∷ value) h k,
        no_export name value k,
        named_value-name name value k,
      )
      refl

after_export_word :
    (text after rest : Text)
    → span is_space text ≡ (after, rest)
    → is_empty after ≡ false
    → after_export (lit "export" ++ text) ≡ some (lit "export" ++ after, rest)
unfolding lit starts_with
after_export_word text after rest h k = rw (h, k) refl

export_assignment :
    (before after name value : Text)
    → every is_space before ≡ true
    → every is_space after ≡ true
    → is_empty after ≡ false
    → IsName name
    → env_assignment (before ++ (lit "export" ++ (after ++ (name ++ b'=' ∷ value))))
      ≡ some (before ++ (lit "export" ++ after), name, value)
unfolding env_assignment lit
export_assignment before after name value h j k l =
    let text = after ++ (name ++ b'=' ∷ value) in
    let first = span-word before (lit "export") text h (refl, refl) in
    let second = span-word after name (b'=' ∷ value) j l in
    let word = after_export_word text after (name ++ b'=' ∷ value) second k in
    rw (first, word, named_value-name name value l) refl

prefixed :
    (prefix name value : Text)
    → IsPrefix prefix
    → IsName name
    → env_assignment (prefix ++ (name ++ b'=' ∷ value)) ≡ some (prefix, name, value)
prefixed prefix name value (blank _ h) k = blank_assignment prefix name value h k
prefixed prefix name value (exporting before after h j l) k =
    ap env_assignment (
      append_assoc before (lit "export" ++ after) (name ++ b'=' ∷ value)
      ∙ ap (λ t. before ++ t) (append_assoc (lit "export") after (name ++ b'=' ∷ value)))
    ∙ export_assignment before after name value h j l k

-- A line that gives a value to a name is read as doing so, with that name and that value.
pub Assigns-env_assignment :
    (line prefix name value : Text)
    → Assigns line prefix name value
    → env_assignment line ≡ some (prefix, name, value)
Assigns-env_assignment line prefix name value a =
    rw (a.is_line) (prefixed prefix name value a.is_prefix a.is_name)
