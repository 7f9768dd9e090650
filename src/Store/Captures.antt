-- ===== src/Store/Captures.antt =====
-- What stays true of the store of src/main/state/store.ts while refreshes overlap with lists and choices:
-- a collector writes to what its refresh took hold of, however late it answers.
use wslpad.Base.{
  ◌≡◌, ◌≤◌, inl, inr, refl, sym, ◌∙◌, not, ◌&&◌, Text, lit, List, [], ◌∷◌, Option, none, some, All,
  All-In, ltb, if_elim, arith, ◌==◌, ==_iff,
}
use wslpad.Snapshot.{DashboardSnapshot, DistroSummary}
use wslpad.Store.Selection.{
  StoreState, running_selected, running_in, current_in, is_running_state, recompute_warnings,
  note_failure, initialize, probed,
}
use wslpad.Store.Tiers.{
  Capture, capture, capture_of, Collected, resources, processes, ports, clock, services, hermes,
  dns, firewall, port_forwarding, distro_details, system_info, tools, environment, important_paths,
  config_files, docker, apply, changed, write_to, joined, finish_fast,
}
use wslpad.Store.Events.{
  Event, starts, lists, picks, fails, probes, begins, collects, tables, ends, serves, visits, step,
  add_capture, held_after, Concerns, IsPossible, Reaches, start, next,
}
use wslpad.Store.Consistent.{
  Shown, IsConsistent, Moves, note_failure-IsConsistent, clear_failure-IsConsistent,
  collect_list-IsConsistent, set_distro-IsConsistent, clear_failure-Moves, collect_list-Moves,
  set_distro-Moves,
}

-- What was taken hold of is an earlier object of sections, or the present one, of that distribution.
abbrev Held : StoreState → Capture → Type 0
Held st c =
    (c.selection ≤ st.selection) × (c.selection ≡ st.selection → st.selected ≡ some c.distro)

Held-Moves : (st st' : StoreState) (c : Capture) → Moves st st' → Held st c → Held st' c
Held-Moves st st' c (inl (e, f)) (h, k) = (omega arith, λ g. f ∙ k (g ∙ e))
Held-Moves st st' c (inr later) (h, k) = (omega arith, λ g. absurd (omega arith))

All-Held-Moves :
    (st st' : StoreState) (cs : List Capture) → Moves st st' → All (Held st) cs → All (Held st') cs
All-Held-Moves st st' [] m h = tt
All-Held-Moves st st' (c ∷ cs) m (h, k) = (Held-Moves st st' c m h, All-Held-Moves st st' cs m k)

running_in-selected :
    (selected : Option Text) (d : Option DistroSummary) (name : Text)
    → running_in selected d ≡ some name
    → selected ≡ some name
running_in-selected selected none name = λ h. cc
running_in-selected selected (some d) name =
    if_elim (λ o. o ≡ some name → selected ≡ some name) (is_running_state d.state) (λ _ h. h)
      (λ _ h. cc)

capture_of-Held :
    (st : StoreState) (name : Option Text) (sections : Option DashboardSnapshot) (cs : List Capture)
    → ((n : Text) → name ≡ some n → st.selected ≡ some n)
    → All (Held st) cs
    → All (Held st) (add_capture (capture_of name st.selection sections) cs)
capture_of-Held st none sections cs m h = h
capture_of-Held st (some n) none cs m h = h
capture_of-Held st (some n) (some s) cs m h = ((omega arith, λ _. m n refl), h)

changed-Shown :
    (f : DashboardSnapshot → DashboardSnapshot) (distros : List DistroSummary) (name : Text)
    (selected : Option Text) (sections : Option DashboardSnapshot)
    → ((s : DashboardSnapshot) → s.distro.name ≡ name → (f s).distro.name ≡ name)
    → selected ≡ some name
    → Shown distros selected sections
    → Shown distros selected (changed f sections)
changed-Shown f distros name none none keeps e h = tt
changed-Shown f distros name none (some s) keeps e h = absurd h
changed-Shown f distros name (some n) none keeps e h = absurd h
changed-Shown f distros name (some n) (some s) keeps e (h, k) =
    let same_name : n ≡ name = ground arith in (keeps s (h ∙ same_name) ∙ sym same_name, k)

write_to-IsConsistent :
    (c : Capture) (f : DashboardSnapshot → DashboardSnapshot) (st : StoreState)
    → ((s : DashboardSnapshot) → s.distro.name ≡ c.distro → (f s).distro.name ≡ c.distro)
    → Held st c
    → IsConsistent st
    → IsConsistent (write_to c f st)
write_to-IsConsistent c f st keeps (_, current) (h, k) =
    if_elim IsConsistent (c.selection == st.selection)
      (λ e. (
        changed-Shown f st.distros c.distro st.selected st.sections keeps
            (current ((==_iff c.selection st.selection).0 e)) h,
        k,
      ))
      (λ _. (h, k))

write_to-Moves :
    (c : Capture) (f : DashboardSnapshot → DashboardSnapshot) (st : StoreState)
    → Moves st (write_to c f st)
write_to-Moves c f st =
    if_elim (Moves st) (c.selection == st.selection) (λ _. inl (refl, refl)) (λ _. inl (refl, refl))

apply-name :
    (c : Capture) (v : Collected) (s : DashboardSnapshot)
    → Concerns c v
    → s.distro.name ≡ c.distro
    → (apply v s).distro.name ≡ c.distro
unfolding apply
apply-name c (resources v) s h e = e
apply-name c (processes v) s h e = e
apply-name c (ports v) s h e = e
apply-name c (clock v) s h e = e
apply-name c (services v) s h e = e
apply-name c (hermes v) s h e = e
apply-name c (dns v) s h e = e
apply-name c (firewall v) s h e = e
apply-name c (port_forwarding v) s h e = e
apply-name c (distro_details v) s h e = h
apply-name c (system_info v) s h e = e
apply-name c (tools v) s h e = e
apply-name c (environment v) s h e = e
apply-name c (important_paths v) s h e = e
apply-name c (config_files v) s h e = e
apply-name c (docker v) s h e = e

finish_fast-IsConsistent :
    (mode : Option Text) (c : Capture) (st : StoreState)
    → Held st c
    → IsConsistent st
    → IsConsistent (finish_fast mode (some c) st)
unfolding finish_fast recompute_warnings joined
finish_fast-IsConsistent mode c st held h =
    write_to-IsConsistent c (joined mode st.windows_port_table) st (λ s e. e) held h

step-IsConsistent :
    (e : Event) (st : StoreState) (cs : List Capture)
    → IsPossible cs e
    → All (Held st) cs
    → IsConsistent st
    → IsConsistent (step e st)
unfolding step initialize recompute_warnings probed finish_fast
step-IsConsistent (starts list) st cs p held h = collect_list-IsConsistent list st h
step-IsConsistent (lists list) st cs p held h = collect_list-IsConsistent list st h
step-IsConsistent (picks name) st cs p held h = set_distro-IsConsistent name st h
step-IsConsistent (fails command) st cs p held h = note_failure-IsConsistent command st h
step-IsConsistent (probes alive now) st cs p held h =
    if_elim IsConsistent (alive && not (ltb 0 st.probe.failures)) (λ _. h) (λ _. h)
step-IsConsistent begins st cs p held h = h
step-IsConsistent (collects c command v) st cs (m, about) held h =
    clear_failure-IsConsistent command (write_to c (apply v) st) (
      write_to-IsConsistent c (apply v) st (λ s e. apply-name c v s about e)
        (All-In (Held st) cs held m) h)
step-IsConsistent (tables table) st cs p held h =
    clear_failure-IsConsistent (lit "netstat -ano") (record st { windows_port_table = some table })
      h
step-IsConsistent (ends mode none) st cs p held h = h
step-IsConsistent (ends mode (some c)) st cs m held h =
    finish_fast-IsConsistent mode c st (All-In (Held st) cs held m) h
step-IsConsistent (serves error) st cs p held h = h
step-IsConsistent (visits cwd) st cs p held h = h

step-Moves : (e : Event) (st : StoreState) → Moves st (step e st)
unfolding step initialize recompute_warnings probed finish_fast note_failure
step-Moves (starts list) st = collect_list-Moves list st
step-Moves (lists list) st = collect_list-Moves list st
step-Moves (picks name) st = set_distro-Moves name st
step-Moves (fails command) st = inl (refl, refl)
step-Moves (probes alive now) st =
    if_elim (Moves st) (alive && not (ltb 0 st.probe.failures)) (λ _. inl (refl, refl))
      (λ _. inl (refl, refl))
step-Moves begins st = inl (refl, refl)
step-Moves (collects c command v) st =
    clear_failure-Moves command st (write_to c (apply v) st) (write_to-Moves c (apply v) st)
step-Moves (tables table) st =
    clear_failure-Moves (lit "netstat -ano") st (record st { windows_port_table = some table })
      (inl (refl, refl))
step-Moves (ends mode none) st = inl (refl, refl)
step-Moves (ends mode (some c)) st = write_to-Moves c (joined mode st.windows_port_table) st
step-Moves (serves error) st = inl (refl, refl)
step-Moves (visits cwd) st = inl (refl, refl)

begins-Held :
    (st : StoreState) (cs : List Capture)
    → All (Held st) cs
    → All (Held st) (add_capture (capture st) cs)
unfolding capture running_selected
begins-Held st cs h =
    capture_of-Held st (running_selected st) st.sections cs
      (λ n e. running_in-selected st.selected (current_in st.distros st.selected) n e) h

still-Held :
    (e : Event) (st : StoreState) (cs : List Capture) → All (Held st) cs → All (Held (step e st)) cs
still-Held e st cs h = All-Held-Moves st (step e st) cs (step-Moves e st) h

held_after-Held :
    (e : Event) (st : StoreState) (cs : List Capture)
    → All (Held st) cs
    → All (Held (step e st)) (held_after e st cs)
unfolding held_after
held_after-Held begins st cs h =
    still-Held begins st (add_capture (capture st) cs) (begins-Held st cs h)
held_after-Held (starts list) st cs h = still-Held (starts list) st cs h
held_after-Held (lists list) st cs h = still-Held (lists list) st cs h
held_after-Held (picks name) st cs h = still-Held (picks name) st cs h
held_after-Held (fails command) st cs h = still-Held (fails command) st cs h
held_after-Held (probes alive now) st cs h = still-Held (probes alive now) st cs h
held_after-Held (collects c command v) st cs h = still-Held (collects c command v) st cs h
held_after-Held (tables table) st cs h = still-Held (tables table) st cs h
held_after-Held (ends mode c) st cs h = still-Held (ends mode c) st cs h
held_after-Held (serves error) st cs h = still-Held (serves error) st cs h
held_after-Held (visits cwd) st cs h = still-Held (visits cwd) st cs h

Reaches-Held :
    {st : StoreState} {cs : List Capture} → Reaches st cs → IsConsistent st × All (Held st) cs
Reaches-Held start = ((tt, (omega arith, tt)), tt)
Reaches-Held (next e {st} {cs} p r) =
    let (h, held) = Reaches-Held r in
    (step-IsConsistent e st cs p held h, held_after-Held e st cs held)

-- Lists, choices, failures and probes may come at any time, and a collector may answer long after its
-- refresh took hold of the sections, when others are shown; details of a distribution carry the name
-- they were asked for. The store then always shows nothing, or the sections of the distribution that
-- is selected, which is in the latest list; and it keeps at most 20 failed commands, none of them
-- twice.
pub Reaches-IsConsistent : {st : StoreState} {cs : List Capture} → Reaches st cs → IsConsistent st
Reaches-IsConsistent r = (Reaches-Held r).0
