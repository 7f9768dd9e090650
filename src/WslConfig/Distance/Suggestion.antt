-- ===== src/WslConfig/Distance/Suggestion.antt =====
-- The suggested key is the nearest documented one, and near enough.
use wslpad.Base.{
  ℕ, ◌≤◌, ◌<◌, ◌≡◌, ◌⊎◌, inl, inr, refl, sym, subst, true, false, Text, List, [], ◌∷◌, Option, none,
  some, arith, Bool-cases, ltb, ltb→lt, to_lower, All, In,
}
use wslpad.Settings.{Scope}
use wslpad.WslConfig.Catalog.{KnownKey, known_keys}
use wslpad.WslConfig.Distance.{edit_distance, same_scope, suggest_from, suggest_key}

module _ (key : Text) (scope : Scope) where
  abbrev pub distance_to : KnownKey → ℕ
  distance_to known = edit_distance key (to_lower known.key)

  -- No key of the scope among `keys` is nearer than `n`.
  abbrev pub NoneNearer : ℕ → List KnownKey → Type 0
  NoneNearer n keys =
      All (λ known. same_scope known.scope scope ≡ true → n ≤ distance_to known) keys

  -- `known` is a key of the scope at distance less than `n`, and none of `keys` is nearer.
  pub record IsNearest (n : ℕ) (keys : List KnownKey) (name : Text) : Type 0 where
    pub known : KnownKey
    pub listed : In known keys
    pub in_scope : same_scope known.scope scope ≡ true
    pub named : known.key ≡ name
    pub near : distance_to known < n
    pub nearest : NoneNearer (distance_to known) keys

  -- What the loop returns: the best key so far if none is nearer, else the nearest.
  abbrev Outcome : List KnownKey → Option Text → ℕ → Option Text → Type 0
  Outcome keys best n r =
      ((r ≡ best) × NoneNearer n keys) ⊎ ((name : Text) × (r ≡ some name) × IsNearest n keys name)

  -- A nearest key of `keys` is one of a longer list whose first key is not nearer.
  IsNearest-cons :
      {n : ℕ} {keys : List KnownKey} {name : Text} (known : KnownKey) (i : IsNearest n keys name)
      → (same_scope known.scope scope ≡ true → n ≤ distance_to known)
      → IsNearest n (known ∷ keys) name
  IsNearest-cons known i far = record {
    known = i.known;
    listed = inr i.listed;
    in_scope = i.in_scope;
    named = i.named;
    near = i.near;
    nearest = ((λ s. omega (arith, far s, i.near)), i.nearest);
  }

  Outcome-kept :
      (known : KnownKey) (keys : List KnownKey) (best : Option Text) (n : ℕ) (r : Option Text)
      → (same_scope known.scope scope ≡ true → n ≤ distance_to known)
      → Outcome keys best n r
      → Outcome (known ∷ keys) best n r
  Outcome-kept known keys best n r far (inl (e, h)) = inl (e, (far, h))
  Outcome-kept known keys best n r far (inr (name, e, i)) =
      inr (name, e, IsNearest-cons known i far)

  Outcome-closer :
      (known : KnownKey) (keys : List KnownKey) (best : Option Text) (n : ℕ) (r : Option Text)
      → same_scope known.scope scope ≡ true
      → distance_to known < n
      → Outcome keys (some known.key) (distance_to known) r
      → Outcome (known ∷ keys) best n r
  Outcome-closer known keys best n r s below (inl (e, h)) = inr (
    known.key,
    e,
    record {
      known = known;
      listed = inl refl;
      in_scope = s;
      named = refl;
      near = below;
      nearest = ((λ _. omega arith), h);
    },
  )
  Outcome-closer known keys best n r s below (inr (name, e, i)) = inr (
    name,
    e,
    record {
      known = i.known;
      listed = inr i.listed;
      in_scope = i.in_scope;
      named = i.named;
      near = omega (arith, i.near);
      nearest = ((λ _. omega (arith, i.near)), i.nearest);
    },
  )

  module _ (known : KnownKey) (keys : List KnownKey) (best : Option Text) (n : ℕ) where
    suggest_closer :
        same_scope known.scope scope ≡ true
        → ltb (distance_to known) n ≡ true
        → suggest_from (known ∷ keys) key scope best n
          ≡ suggest_from keys key scope (some known.key) (distance_to known)
    unfolding suggest_from
    suggest_closer s closer = rw (s, closer)

    suggest_kept :
        (same_scope known.scope scope ≡ false) ⊎ (ltb (distance_to known) n ≡ false)
        → suggest_from (known ∷ keys) key scope best n ≡ suggest_from keys key scope best n
    unfolding suggest_from
    suggest_kept (inl s) = rw s
    suggest_kept (inr far) = ground arith

  suggest_from-Outcome :
      (keys : List KnownKey) (best : Option Text) (n : ℕ)
      → Outcome keys best n (suggest_from keys key scope best n)
  unfolding suggest_from
  suggest_from-Outcome [] best n = inl (refl, tt)
  suggest_from-Outcome (known ∷ keys) best n =
      let closer = suggest_from-Outcome keys (some known.key) (distance_to known) in
      let kept = suggest_from-Outcome keys best n in
      let to = λ (r : Option Text). Outcome (known ∷ keys) best n r in
      elim (Bool-cases (same_scope known.scope scope)) [
        | inl s ↦ elim (Bool-cases (ltb (distance_to known) n)) [
          | inl below ↦
              subst to (sym (suggest_closer known keys best n s below))
                (Outcome-closer known keys best n _ s (ltb→lt _ _ below) closer)
          | inr far ↦
              subst to (sym (suggest_kept known keys best n (inr far)))
                (Outcome-kept known keys best n _ (λ _. ground arith) kept)
        ]
        | inr s ↦
            subst to (sym (suggest_kept known keys best n (inl s)))
              (Outcome-kept known keys best n _ (λ t. cc) kept)
      ]

-- A suggestion is the name of a documented key of that file, at most two edits from what was
-- written, and no documented key of that file is nearer; where there is none, every documented key
-- of that file is three edits away or more.
pub suggest_key-IsNearest :
    (key : Text) (scope : Scope)
    → ((suggest_key key scope ≡ none) × NoneNearer (to_lower key) scope 3 known_keys)
      ⊎ ((name : Text) × (suggest_key key scope ≡ some name)
          × IsNearest (to_lower key) scope 3 known_keys name)
unfolding suggest_key
suggest_key-IsNearest key scope = suggest_from-Outcome (to_lower key) scope known_keys none 3
