-- ===== src/Explorer/Loops/Reports.antt =====
-- The reports of the loop in src/main/explorer/operations.ts and transfer.ts.
use wslpad.Base.{
  ℕ, suc, ◌+◌, ◌≤◌, ◌<◌, ◌≡◌, ◌≢◌, refl, ap, ◌∙◌, sym, subst, Bool, true, false, Text, lit, List,
  [], ◌∷◌, ◌++◌, Option, none, some, arith, length, join, append_assoc, ◌⊎◌, inl, inr, is_empty,
  if_elim,
}
use wslpad.Base.Results.{Result, ok, err}
use wslpad.Explorer.Loops.{
  Op, OpState, Step, FileOpProgress, FileOpStatus, bytes_if, running, done, error, cancelled, emit,
  push_error, caught, count_item, finish, round, each,
}

-- Reports of a loop at work, from `a` items on to `b`: the count never falls.
abbrev pub Climbs : ℕ → List FileOpProgress → ℕ → Type 0
Climbs a [] b = a ≤ b
Climbs a (r ∷ rs) b = (r.status ≡ running) × (a ≤ r.done_items) × Climbs r.done_items rs b

pub Climbs-append :
    (a b c : ℕ) (xs ys : List FileOpProgress)
    → Climbs a xs b
    → Climbs b ys c
    → Climbs a (xs ++ ys) c
Climbs-append a b c [] [] h k = omega arith
Climbs-append a b c [] (y ∷ ys) h k = (k.0, omega (arith, k.1), k.2)
Climbs-append a b c (x ∷ xs) ys h k = (h.0, h.1, Climbs-append x.done_items b c xs ys h.2 k)

is_empty-nil : {A : Type 0} (xs : List A) → is_empty xs ≡ true → xs ≡ []
is_empty-nil [] h = refl
is_empty-nil (x ∷ xs) h = cc

nonempty : {A : Type 0} (xs : List A) → is_empty xs ≡ false → xs ≢ []
nonempty [] h = cc
nonempty (x ∷ xs) h = λ e. cc

module _ {S : Type 0} where
  -- A body leaves the count alone, and reports nothing but that the loop is at work.
  pub record IsQuiet (st after : OpState S) : Type 0 where
    pub more : List FileOpProgress
    pub appended : after.emitted ≡ st.emitted ++ more
    pub climbs : Climbs st.done_items more st.done_items
    pub counts : after.done_items ≡ st.done_items

  -- How a loop of `n` items ends: with all of them done and no error, with all done and the errors
  -- joined, or cancelled before the last one.
  abbrev pub Ends : OpState S → FileOpProgress → ℕ → Type 0
  Ends final last n =
      ((last.status ≡ done) × (last.done_items ≡ n) × (final.errors ≡ []) × (last.failure ≡ none))
      ⊎ ((last.status ≡ error)
          × (last.done_items ≡ n)
          × (final.errors ≢ [])
          × (last.failure ≡ some (join (lit "; ") final.errors)))
      ⊎ ((last.status ≡ cancelled) × (last.done_items < n))

  -- The reports of a loop: those at work, and one last report.
  pub record IsReported (st final : OpState S) (n : ℕ) : Type 0 where
    pub more : List FileOpProgress
    pub last : FileOpProgress
    pub appended : final.emitted ≡ st.emitted ++ (more ++ last ∷ [])
    pub climbs : Climbs st.done_items more last.done_items
    pub ends : Ends final last n

  abbrev pub report_at : Op → FileOpStatus → Option Text → Option Text → OpState S → FileOpProgress
  report_at op status item failure st = record {
    op_id = op.op_id;
    kind = op.kind;
    status = status;
    total_items = op.total_items;
    done_items = st.done_items;
    total_bytes = bytes_if op.counts_bytes st.total_bytes;
    done_bytes = bytes_if op.counts_bytes st.done_bytes;
    current_item = item;
    failure = failure;
  }

  finish-IsReported : (op : Op) (st : OpState S) → IsReported st (finish op st) st.done_items
  unfolding finish emit
  finish-IsReported op st =
      if_elim (λ final. IsReported st final st.done_items) (is_empty st.errors)
        (λ clear. record {
          more = [];
          last = report_at op done none none st;
          appended = refl;
          climbs = omega arith;
          ends = inl (refl, refl, is_empty-nil st.errors clear, refl);
        })
        (λ failed. record {
          more = [];
          last = report_at op error none (some (join (lit "; ") st.errors)) st;
          appended = refl;
          climbs = omega arith;
          ends = inr (inl (refl, refl, nonempty st.errors failed, refl));
        })

  caught-emitted :
      (x : Result Text (Unit {0}) × OpState S)
      → ((caught x).emitted ≡ x.1.emitted) × ((caught x).done_items ≡ x.1.done_items)
  unfolding push_error
  caught-emitted (ok _, st) = (refl, refl)
  caught-emitted (err e, st) = (refl, refl)

  -- One round counts one item.
  record IsRound (st after : OpState S) : Type 0 where
    more : List FileOpProgress
    appended : after.emitted ≡ st.emitted ++ more
    climbs : Climbs st.done_items more (suc st.done_items)
    counts : after.done_items ≡ suc st.done_items

  module _ (op : Op) (body : Text → Step S (Unit {0})) where
    round-IsRound :
        (item : Text) (st : OpState S)
        → IsQuiet
            (emit op running (some item) none st)
            (body item (emit op running (some item) none st)).1
        → IsRound st (round op body item st)
    unfolding round emit count_item
    round-IsRound item st quiet =
        let begun : OpState S = emit op running (some item) none st in
        let tried = body item begun in
        let kept = caught-emitted tried in
        let counted : (caught tried).done_items ≡ st.done_items = kept.1 ∙ quiet.counts in
        let opening : FileOpProgress = report_at op running (some item) none st in
        let closing : FileOpProgress =
          report_at op running (some item) none (count_item (caught tried)) in
        record {
          more = opening ∷ (quiet.more ++ closing ∷ []);
          appended =
              ap (λ xs. xs ++ closing ∷ []) (kept.0 ∙ quiet.appended)
              ∙ append_assoc (st.emitted ++ opening ∷ []) quiet.more (closing ∷ [])
              ∙ append_assoc st.emitted (opening ∷ []) (quiet.more ++ closing ∷ []);
          climbs = (
            refl,
            omega arith,
            Climbs-append st.done_items st.done_items (suc st.done_items) quiet.more (closing ∷ [])
                quiet.climbs (refl, omega (arith, counted), omega (arith, counted)),
          );
          counts = ap suc counted;
        }

    later-IsReported :
        (st next final : OpState S) (n : ℕ)
        → IsRound st next
        → IsReported next final n
        → IsReported st final n
    later-IsReported st next final n first rest = record {
      more = first.more ++ rest.more;
      last = rest.last;
      appended =
          rest.appended
          ∙ ap (λ xs. xs ++ (rest.more ++ rest.last ∷ [])) first.appended
          ∙ append_assoc st.emitted first.more (rest.more ++ rest.last ∷ [])
          ∙ ap (λ xs. st.emitted ++ xs) (sym (append_assoc first.more rest.more (rest.last ∷ [])));
      climbs =
          Climbs-append st.done_items next.done_items rest.last.done_items first.more rest.more
            (subst (Climbs st.done_items first.more) (sym first.counts) first.climbs) rest.climbs;
      ends = rest.ends;
    }

    pub each-IsReported :
        (is_cancelled : S → Bool) (items : List Text) (st : OpState S)
        → ((item : Text) (s : OpState S) → IsQuiet s (body item s).1)
        → IsReported st (each op body is_cancelled items st) (st.done_items + length items)
    unfolding each emit
    each-IsReported is_cancelled [] st quiet =
        subst (IsReported st (finish op st)) (omega arith) (finish-IsReported op st)
    each-IsReported is_cancelled (item ∷ items) st quiet =
        let n = st.done_items + suc (length items) in
        let next = round op body item st in
        let first = round-IsRound item st (quiet item (emit op running (some item) none st)) in
        if_elim (λ final. IsReported st final n) (is_cancelled st.world)
          (λ stop. record {
            more = [];
            last = report_at op cancelled none none st;
            appended = refl;
            climbs = omega arith;
            ends = inr (inr (refl, omega arith));
          })
          (λ go_on. later-IsReported st next (each op body is_cancelled items next) n first (
            subst (IsReported next (each op body is_cancelled items next))
              (omega (arith, first.counts)) (each-IsReported is_cancelled items next quiet)))

    -- The loop from the start.
    pub begin-IsReported :
        (is_cancelled : S → Bool) (items : List Text) (st : OpState S) (n : ℕ)
        → st.done_items + length items ≡ n
        → ((item : Text) (s : OpState S) → IsQuiet s (body item s).1)
        → IsReported st (each op body is_cancelled items st) n
    begin-IsReported is_cancelled items st n count quiet =
        subst (IsReported st (each op body is_cancelled items st)) count
          (each-IsReported is_cancelled items st quiet)
