-- ===== src/Manager/Process/Endings.antt =====
-- How a process of the manager can end, and what it logs.
use cs331_t011_kubernetes_se.Common.{◌≡◌, true, none, some, ◌++◌, ◌⊎◌}
use cs331_t011_kubernetes_se.Go.Text.{Str, str}
use cs331_t011_kubernetes_se.Go.Floats.{Floats}
use cs331_t011_kubernetes_se.Manager.Process.{Startup, returned, Process}

-- The configuration can be read in the cluster or from the files.
abbrev pub HasConfig : Startup → Type 0
HasConfig s = (s.in_cluster ≡ none) ⊎ (s.from_files ≡ none)

-- Why a process cannot start, and what it says then: the first of three errors.
pub data FailsWith (s : Startup) : Str → Type 0 where
  no_config :
      {why err : Str}
      → s.in_cluster ≡ some why
      → s.from_files ≡ some err
      → FailsWith s (str "failed to load Kubernetes configuration: " ++ err)
  no_core :
      {err : Str}
      → HasConfig s
      → s.core_client ≡ some err
      → FailsWith s (str "failed to create Kubernetes client: " ++ err)
  no_dynamic :
      {err : Str}
      → HasConfig s
      → s.core_client ≡ none
      → s.dynamic_client ≡ some err
      → FailsWith s (str "failed to create dynamic Kubernetes client: " ++ err)

-- No error keeps the process from starting.
abbrev pub CanStart : Startup → Type 0
CanStart s = HasConfig s × (s.core_client ≡ none) × (s.dynamic_client ≡ none)

-- What holds of a process at any time.
record IsSound (start : Process) (p : Process) : Type 0 where
  log_kept : p.log ≡ start.log
  closing_done : p.is_closing ≡ true → p.is_done ≡ true
  returned_done : p.exit ≡ some returned → p.is_closing ≡ true
