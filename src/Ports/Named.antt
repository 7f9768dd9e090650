-- ===== src/Ports/Named.antt =====
-- The names of processes in the collector of Windows listeners: one run of tasklist is enough for them.
use wslpad.Base.{
  any-append, ℕ, ◌≡◌, refl, ap, true, false, not, ◌&&◌, Text, List, [], ◌∷◌, ◌++◌, is_none, map,
  arith, if◌then◌else◌, if_elim, ◌==◌, ==_refl,
}
use wslpad.Base.Results.{Result, ok}
use wslpad.Ports.Windows.{name_of, parse_netstat}
use wslpad.Ports.Collector.{
  Collector, is_unnamed, is_settled, note_unnamed, pids_of, needs_names, settle_names,
  refresh_names, with_name, scan,
}

-- Noting some processes forgets no other.
note_unnamed-keeps :
    (pids : List ℕ) (st : Collector) (pid : ℕ)
    → is_settled st pid ≡ true
    → is_settled (note_unnamed pids st) pid ≡ true
unfolding note_unnamed
note_unnamed-keeps [] st pid h = h
note_unnamed-keeps (q ∷ pids) st pid h = note_unnamed-keeps pids _ pid (
    if_elim (λ s. is_settled s pid ≡ true) (is_none (name_of st.names q) && not (is_unnamed st q))
      (λ e. ground (arith, any-append (λ p. p == pid) st.unnamed (q ∷ []))) (λ e. h))

note_one_settles :
    (st : Collector) (q : ℕ)
    → is_settled
        (if is_none (name_of st.names q) && not (is_unnamed st q)
          then record { cached = st.cached; names = st.names; unnamed = st.unnamed ++ q ∷ [] }
          else st)
        q
      ≡ true
note_one_settles st q =
    if_elim (λ s. is_settled s q ≡ true) (is_none (name_of st.names q) && not (is_unnamed st q))
      (λ e. ground (arith, any-append (λ p. p == q) st.unnamed (q ∷ []), ==_refl q))
      (λ e. ground arith)

-- No process of the list is left to ask for.
needs_names-note_unnamed :
    (pids : List ℕ) (st : Collector) → needs_names (note_unnamed pids st) pids ≡ false
unfolding note_unnamed
needs_names-note_unnamed [] st = refl
needs_names-note_unnamed (q ∷ pids) st =
    let noted : Collector =
      if is_none (name_of st.names q) && not (is_unnamed st q)
      then record { cached = st.cached; names = st.names; unnamed = st.unnamed ++ q ∷ [] }
      else st in
    let here : is_settled (note_unnamed pids noted) q ≡ true =
      note_unnamed-keeps pids noted q (note_one_settles st q) in
    rw (here, needs_names-note_unnamed pids noted) refl

needs_names-settle_names :
    (tasklist : Result Text Text) (pids : List ℕ) (st : Collector)
    → needs_names (settle_names tasklist pids st) pids ≡ false
unfolding settle_names
needs_names-settle_names tasklist pids st =
    if_elim (λ s. needs_names s pids ≡ false) (needs_names st pids)
      (λ e. needs_names-note_unnamed pids (refresh_names tasklist st)) (λ e. e)

settle_names_idle :
    (tasklist : Result Text Text) (pids : List ℕ) (st : Collector)
    → needs_names st pids ≡ false
    → settle_names tasklist pids st ≡ st
unfolding settle_names
settle_names_idle tasklist pids st e = rw e refl

-- After a scan of the table every process in it has a name or is known to have none: another scan of
-- the same table gives the same listeners, whatever tasklist would answer then.
pub scan-again :
    (later later' : ℕ) (out : Text) (tasklist again : Result Text Text) (st : Collector)
    → (scan later' (ok out) again (scan later (ok out) tasklist st).1).0
      ≡ (scan later (ok out) tasklist st).0
unfolding scan
scan-again later later' out tasklist again st =
    let pids = pids_of (parse_netstat out) in
    let settled = settle_names tasklist pids st in
    let kept : Collector = (scan later (ok out) tasklist st).1 in
    ap (λ (s : Collector). ok (map (with_name s.names) (parse_netstat out)))
      (settle_names_idle again pids kept (needs_names-settle_names tasklist pids st))
