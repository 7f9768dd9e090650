-- ===== src/Store/Consistent.antt =====
-- What stays true of the store of src/main/state/store.ts, whatever happens in whatever order.
use wslpad.Base.{
  ◌⊎◌, inr, ◌<◌, ◌≡◌, inl, refl, sym, ap, not, Text, List, [], ◌∷◌, Option, none, some, find,
  find-In, find-holds, head?, In, same, same_iff, one_of, if_elim, arith,
}
use wslpad.Base.Results.{Result, ok, err}
use wslpad.Shell.{assert_valid_distro_name, Refusal}
use wslpad.Snapshot.{DashboardSnapshot, DistroSummary}
use wslpad.Store.Failures.{IsTracked, note-IsTracked, clear-IsTracked}
use wslpad.Store.Selection.{
  StoreState, select_internal, sections_for, default_in, or_first, refreshed_sections, current_in,
  apply_distro_list, recompute_warnings, note_failure, clear_failure, list_command, collect_list,
  set_distro, keep_or_select, select_next, picked, is_selected, validated,
}

-- A distribution of that name is in the list.
pub record IsListed (name : Text) (distros : List DistroSummary) : Type 0 where
  pub summary : DistroSummary
  pub found : In summary distros
  pub named : summary.name ≡ name

-- Nothing is selected and nothing shown, or the sections are those of the selected distribution, which
-- is in the list.
abbrev pub Shown : List DistroSummary → Option Text → Option DashboardSnapshot → Type 0
Shown distros none none = Unit
Shown distros none (some s) = ⊥
Shown distros (some name) none = ⊥
Shown distros (some name) (some s) = (s.distro.name ≡ name) × IsListed name distros

abbrev pub IsConsistent : StoreState → Type 0
IsConsistent st = Shown st.distros st.selected st.sections × IsTracked st.runner_failures

select_internal-IsConsistent :
    (d : DistroSummary) (st : StoreState) → In d st.distros → IsConsistent (select_internal d st)
unfolding select_internal sections_for
select_internal-IsConsistent d st m =
    ((refl, record { summary = d; found = m; named = refl }), (omega arith, tt))

head-In : {A : Type 0} (xs : List A) {x : A} → head? xs ≡ some x → In x xs
head-In [] h = cc
head-In (y ∷ ys) h = inl (ground arith)

or_first-In :
    (found : Option DistroSummary) (list : List DistroSummary) (d : DistroSummary)
    → ((e : DistroSummary) → found ≡ some e → In e list)
    → or_first found list ≡ some d
    → In d list
or_first-In (some e) list d m h = m d h
or_first-In none list d m h = head-In list h

default_in-In :
    (list : List DistroSummary) (d : DistroSummary) → default_in list ≡ some d → In d list
default_in-In list d h =
    or_first-In (find (λ d. d.is_default) list) list d (λ e f. find-In (λ d. d.is_default) list f) h

current_in-found :
    (list : List DistroSummary) (selected : Option Text) (cur : DistroSummary)
    → current_in list selected ≡ some cur
    → (selected ≡ some cur.name) × In cur list
current_in-found list none cur h = cc
current_in-found list (some []) cur h = cc
current_in-found list (some (c ∷ name)) cur h =
    let is_named : cur.name ≡ c ∷ name =
      (same_iff cur.name (c ∷ name)).0 (find-holds (λ d. same d.name (c ∷ name)) list h) in
    (ap some (sym is_named), find-In (λ d. same d.name (c ∷ name)) list h)

refreshed-Shown :
    (list old : List DistroSummary) (cur : DistroSummary) (selected : Option Text)
    (sections : Option DashboardSnapshot)
    → Shown old selected sections
    → selected ≡ some cur.name
    → In cur list
    → Shown list selected (refreshed_sections cur sections)
refreshed-Shown list old cur none none h e m = cc
refreshed-Shown list old cur none (some s) h e m = absurd h
refreshed-Shown list old cur (some name) none h e m = absurd h
refreshed-Shown list old cur (some name) (some s) (h, k) e m =
    (h, record { summary = cur; found = m; named = ground arith })

select_next-IsConsistent :
    (list : List DistroSummary) (next : Option DistroSummary) (st : StoreState)
    → IsTracked st.runner_failures
    → ((d : DistroSummary) → next ≡ some d → In d list)
    → IsConsistent (select_next list next st)
select_next-IsConsistent list none st h m = (tt, h)
select_next-IsConsistent list (some d) st h m =
    select_internal-IsConsistent d (record st { distros = list }) (m d refl)

keep_or_select-IsConsistent :
    (list : List DistroSummary) (current : Option DistroSummary) (st : StoreState)
    → IsConsistent st
    → ((cur : DistroSummary) → current ≡ some cur → (st.selected ≡ some cur.name) × In cur list)
    → IsConsistent (keep_or_select list current st)
keep_or_select-IsConsistent list (some cur) st (h, k) m =
    let (e, found) = m cur refl in
    (refreshed-Shown list st.distros cur st.selected st.sections h e found, k)
keep_or_select-IsConsistent list none st (h, k) m =
    select_next-IsConsistent list (default_in list) st k (default_in-In list)

apply_distro_list-IsConsistent :
    (list : List DistroSummary) (st : StoreState)
    → IsConsistent st
    → IsConsistent (apply_distro_list list st)
unfolding apply_distro_list
apply_distro_list-IsConsistent list st h =
    keep_or_select-IsConsistent list (current_in list st.selected) st h
      (current_in-found list st.selected)

pub note_failure-IsConsistent :
    (command : Text) (st : StoreState) → IsConsistent st → IsConsistent (note_failure command st)
unfolding note_failure recompute_warnings
note_failure-IsConsistent command st (h, k) = (h, note-IsTracked command st.runner_failures k)

pub clear_failure-IsConsistent :
    (command : Text) (st : StoreState) → IsConsistent st → IsConsistent (clear_failure command st)
unfolding clear_failure recompute_warnings
clear_failure-IsConsistent command st (h, k) =
    if_elim IsConsistent (not (one_of command st.runner_failures)) (λ _. (h, k))
      (λ _. (h, clear-IsTracked command st.runner_failures k))

pub collect_list-IsConsistent :
    (list : Result Text (List DistroSummary)) (st : StoreState)
    → IsConsistent st
    → IsConsistent (collect_list list st)
unfolding collect_list
collect_list-IsConsistent (ok list) st h =
    clear_failure-IsConsistent list_command (apply_distro_list list st)
      (apply_distro_list-IsConsistent list st h)
collect_list-IsConsistent (err message) st h = note_failure-IsConsistent list_command st h

picked-IsConsistent :
    (name : Text) (found : Option DistroSummary) (st : StoreState)
    → IsConsistent st
    → ((d : DistroSummary) → found ≡ some d → In d st.distros)
    → IsConsistent (picked name found st).1
unfolding recompute_warnings
picked-IsConsistent name none st h m = h
picked-IsConsistent name (some d) st h m = select_internal-IsConsistent d st (m d refl)

validated-IsConsistent :
    (name : Text) (valid : Result Refusal (Unit {0})) (st : StoreState)
    → IsConsistent st
    → IsConsistent (validated name valid st).1
validated-IsConsistent name (err refusal) st h = h
validated-IsConsistent name (ok valid) st h =
    if_elim (λ (r : Result Text (Unit {0}) × StoreState). IsConsistent r.1)
      (is_selected name st.selected) (λ _. h)
      (λ _.
        picked-IsConsistent name (find (λ d. same d.name name) st.distros) st h
          (λ d e. find-In (λ d. same d.name name) st.distros e))

pub set_distro-IsConsistent :
    (name : Text) (st : StoreState) → IsConsistent st → IsConsistent (set_distro name st).1
unfolding set_distro
set_distro-IsConsistent name st h = validated-IsConsistent name (assert_valid_distro_name name) st h

-- The same object of sections and the same selection, or another object.
abbrev pub Moves : StoreState → StoreState → Type 0
Moves st st' =
    ((st'.selection ≡ st.selection) × (st'.selected ≡ st.selected)) ⊎ (st.selection < st'.selection)

pub clear_failure-Moves :
    (command : Text) (st st' : StoreState) → Moves st st' → Moves st (clear_failure command st')
unfolding clear_failure recompute_warnings
clear_failure-Moves command st st' h =
    if_elim (Moves st) (not (one_of command st'.runner_failures)) (λ _. h) (λ _. h)

select_next-Moves :
    (list : List DistroSummary) (next : Option DistroSummary) (st : StoreState)
    → Moves st (select_next list next st)
unfolding select_internal
select_next-Moves list none st = inr (omega arith)
select_next-Moves list (some d) st = inr (omega arith)

keep_or_select-Moves :
    (list : List DistroSummary) (current : Option DistroSummary) (st : StoreState)
    → Moves st (keep_or_select list current st)
keep_or_select-Moves list (some cur) st = inl (refl, refl)
keep_or_select-Moves list none st = select_next-Moves list (default_in list) st

pub collect_list-Moves :
    (list : Result Text (List DistroSummary)) (st : StoreState) → Moves st (collect_list list st)
unfolding collect_list apply_distro_list note_failure recompute_warnings
collect_list-Moves (ok list) st =
    clear_failure-Moves list_command st (apply_distro_list list st)
      (keep_or_select-Moves list (current_in list st.selected) st)
collect_list-Moves (err message) st = inl (refl, refl)

picked-Moves :
    (name : Text) (found : Option DistroSummary) (st : StoreState)
    → Moves st (picked name found st).1
unfolding recompute_warnings select_internal
picked-Moves name none st = inl (refl, refl)
picked-Moves name (some d) st = inr (omega arith)

validated-Moves :
    (name : Text) (valid : Result Refusal (Unit {0})) (st : StoreState)
    → Moves st (validated name valid st).1
validated-Moves name (err refusal) st = inl (refl, refl)
validated-Moves name (ok valid) st =
    if_elim (λ (r : Result Text (Unit {0}) × StoreState). Moves st r.1)
      (is_selected name st.selected) (λ _. inl (refl, refl))
      (λ _. picked-Moves name (find (λ d. same d.name name) st.distros) st)

pub set_distro-Moves : (name : Text) (st : StoreState) → Moves st (set_distro name st).1
unfolding set_distro
set_distro-Moves name st = validated-Moves name (assert_valid_distro_name name) st
