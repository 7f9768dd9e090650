-- ===== src/Ports/ProxyHistory.antt =====
-- The collector of forwarding rules over a series of calls: what it answers when netsh fails at times.
use wslpad.Base.{
  ℕ, ◌≡◌, refl, Text, lit, List, [], ◌∷◌, ◌++◌, Option, none, some, arith, take, if◌then◌else◌,
}
use wslpad.Base.Results.{Result, ok, err}
use wslpad.Ports.{PortProxyRule}
use wslpad.Ports.Proxy.{
  ProxyTable, rules_of, is_due, table_at, collect, parse_port_proxy, judge_rules, unreadable,
}

-- A call: when it comes and when a run of netsh ends, what that run gives, and the address of the
-- distribution at the time.
pub record Call : Type 0 where
  pub now : ℕ
  pub later : ℕ
  pub answer : Result Text Text
  pub distro_ip : Option Text

-- The collector's table, and the answers of netsh so far, the latest first.
pub record Run : Type 0 where
  pub table : Option ProxyTable
  pub answers : List (Result Text Text)

abbrev pub start : Run
start = record { table = none; answers = [] }

abbrev asked :
    ℕ → ℕ → Option ProxyTable → Result Text Text → List (Result Text Text) → List (Result Text Text)
asked ttl now table answer answers = if is_due ttl now table then answer ∷ answers else answers

unfoldable pub call : ℕ → Run → Call → Run
unfolding collect
call ttl run c = record {
  table = some (collect ttl c.now c.later c.answer c.distro_ip run.table).1;
  answers = asked ttl c.now run.table c.answer run.answers;
}

unfoldable pub calls : ℕ → Run → List Call → Run
unfolding call
calls ttl run [] = run
calls ttl run (c ∷ cs) = calls ttl (call ttl run c) cs

-- The rules of the latest answer that was a table, and what is said of the latest answer.
abbrev pub latest_rules : List (Result Text Text) → List PortProxyRule
latest_rules [] = []
latest_rules (ok out ∷ answers) = parse_port_proxy out
latest_rules (err message ∷ answers) = latest_rules answers

abbrev pub latest_failure : List (Result Text Text) → Option Text
latest_failure [] = none
latest_failure (ok out ∷ answers) = none
latest_failure (err message ∷ answers) = some (take 400 (unreadable ++ (lit ": " ++ message)))

abbrev failure_of : Option ProxyTable → Option Text
failure_of none = none
failure_of (some table) = table.failure

-- The table is what the answers say.
abbrev pub IsKept : Run → Type 0
IsKept run =
    (rules_of run.table ≡ latest_rules run.answers)
    × (failure_of run.table ≡ latest_failure run.answers)

call-IsKept :
    (ttl now later : ℕ) (answer : Result Text Text) (table : Option ProxyTable)
    (answers : List (Result Text Text))
    → IsKept (record { table = table; answers = answers })
    → IsKept (record {
      table = some (table_at ttl now later answer table);
      answers = asked ttl now table answer answers;
    })
call-IsKept ttl now later (ok out) none answers h = (refl, refl)
call-IsKept ttl now later (err message) none answers h = (h.0, refl)
call-IsKept ttl now later (ok out) (some table) answers h = ground arith
call-IsKept ttl now later (err message) (some table) answers h = ground arith

calls-IsKept : (ttl : ℕ) (run : Run) (cs : List Call) → IsKept run → IsKept (calls ttl run cs)
unfolding calls
calls-IsKept ttl run [] h = h
calls-IsKept ttl run (c ∷ cs) h =
    calls-IsKept ttl (call ttl run c) cs
      (call-IsKept ttl c.now c.later c.answer run.table run.answers h)

-- However often netsh failed before and in a call, the call answers with the rules of the latest run
-- that gave a table, judged against the address of the distribution at the time; and it names a failure
-- just when the latest run failed. No rules are lost to a failure, and none is called fresh by one.
pub collect-kept :
    (ttl : ℕ) (cs : List Call) (c : Call)
    → let before = calls ttl start cs in
      let after = call ttl before c in
      (collect ttl c.now c.later c.answer c.distro_ip before.table).0 ≡ record {
        rules = judge_rules (latest_rules after.answers) c.distro_ip;
        distro_ip = c.distro_ip;
        failure = latest_failure after.answers;
      }
unfolding call collect
collect-kept ttl cs c =
    let before = calls ttl start cs in
    let kept =
      call-IsKept ttl c.now c.later c.answer before.table before.answers
        (calls-IsKept ttl start cs (refl, refl)) in
    rw (kept.0, kept.1) refl
