-- ===== src/Recovery/Advice.antt =====
-- What the advice of src/main/state/recovery.ts never does.
use wslpad.Base.{ℕ, ◌≡◌, Bool, true, false, List, In, is_empty, map, select}
use wslpad.Snapshot.{ProcessInfo}
use wslpad.Recovery.{
  RecoveryStep, RecoveryStepId, reload_window, restart_vscode_server, terminate_distro,
  shutdown_wsl, recommended, has_vscode_root,
}

-- A process with the directory of the VS Code Server in its command.
pub record IsServer (processes : List ProcessInfo) (pid : ℕ) : Type 0 where
  pub process : ProcessInfo
  pub found : In process processes
  pub same_pid : process.pid ≡ pid
  pub proven : has_vscode_root process.command ≡ true

abbrev is_recommended : RecoveryStep → Bool
is_recommended s = elim s.status [ recommended ↦ true | _ ↦ false ]

abbrev pub recommended_ids : List RecoveryStep → List RecoveryStepId
recommended_ids steps = map (λ s. s.id) (select is_recommended steps)

-- The restart of the server is advised only where a process of it was measured.
abbrev CanStart : RecoveryStepId → List ℕ → Type 0
CanStart reload_window pids = Unit
CanStart restart_vscode_server pids = is_empty pids ≡ false
CanStart terminate_distro pids = Unit
CanStart shutdown_wsl pids = ⊥
