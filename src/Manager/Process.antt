-- ===== src/Manager/Process.antt =====
-- code/cmd/manager/main.go, `main` and `kubernetesConfig`: how the process starts, and its three
-- goroutines until it ends.
pub mod Endings
use cs331_t011_kubernetes_se.Common.{
  ℕ, any, ◌≡◌, Bool, true, false, not, ◌&&◌, Option, none, some, List, [], ◌∷◌, ◌++◌, if◌then◌else◌,
}
use cs331_t011_kubernetes_se.Go.Text.{Str, str}
use cs331_t011_kubernetes_se.Common.Int.{pos}
use cs331_t011_kubernetes_se.Go.Floats.{Floats}
use cs331_t011_kubernetes_se.Controller.Probe.{Formats}
use cs331_t011_kubernetes_se.Controller.Resource.{Api, Operator}
use cs331_t011_kubernetes_se.Controller.Sweep.{Listing, Clocks, Turn, Wake, is_end, run}
use cs331_t011_kubernetes_se.Manager.{Environment, env_or_default, duration_log}

-- The errors of the packages when the process starts; `none` is no error.
pub record Startup : Type 0 where
  pub in_cluster : Option Str
  pub from_files : Option Str
  pub core_client : Option Str
  pub dynamic_client : Option Str

-- The error of `kubernetesConfig`: the files are read where the process is in no cluster.
unfoldable pub kubernetes_config : Startup → Option Str
kubernetes_config s = elim s.in_cluster [ none ↦ none | some err ↦ s.from_files ]

-- The text of the first `log.Fatalf` that is met, if any, of those on the configuration and on the
-- two clients.
unfoldable pub first_fatal : Option Str → Option Str → Option Str → Option Str
first_fatal (some err) core dynamic = some (str "failed to load Kubernetes configuration: " ++ err)
first_fatal none (some err) dynamic = some (str "failed to create Kubernetes client: " ++ err)
first_fatal none none (some err) = some (str "failed to create dynamic Kubernetes client: " ++ err)
first_fatal none none none = none

unfoldable pub start_error : Startup → Option Str
start_error s = first_fatal (kubernetes_config s) s.core_client s.dynamic_client

-- How the process ends: `main` returns, or `log.Fatalf` is called with a text.
pub data Exit : Type 0 where
  returned : Exit
  fatal : Str → Exit

-- Whether the context is done, the controller's `Run` has returned, and `Shutdown` has been called;
-- the lines logged, the latest first; and the end, if it has come.
pub record Process : Type 0 where
  pub is_done : Bool
  pub has_stopped : Bool
  pub is_closing : Bool
  pub log : List Str
  pub exit : Option Exit

-- The process at its first wait: ended by an error, or with its goroutines under way.
unfoldable pub boot_with : Environment → Option Str → Process
boot_with env (some text) = record {
  is_done = false;
  has_stopped = false;
  is_closing = false;
  log = [];
  exit = some (fatal text);
}
boot_with env none = record {
  is_done = false;
  has_stopped = false;
  is_closing = false;
  log =
      (str "selfheal-manager started; listening on :"
        ++ env_or_default env (str "PORT") (str "8080"))
      ∷ duration_log env (str "POLL_INTERVAL") (pos 15_000_000_000);
  exit = none;
}

unfoldable pub boot : Environment → Startup → Process
boot env s = boot_with env (start_error s)

-- The goroutine of the controller when `Run` returns.
unfoldable pub log_stopped : Option Str → Process → Process
log_stopped none p = record p { has_stopped = true }
log_stopped (some err) p = record p {
  has_stopped = true;
  log = if not p.is_done then (str "controller stopped: " ++ err) ∷ p.log else p.log;
}

-- `main` when `ListenAndServe` returns: `none` stands for `ErrServerClosed`.
unfoldable pub serve_returns : Option Str → Process → Process
serve_returns none p = record p { exit = some returned }
serve_returns (some err) p = record p {
  exit = some (fatal (str "failed to start manager HTTP server: " ++ err));
}

module _ {C : Type 0} (fl : Floats) (formats : Formats) (api : Api C fl.F) (clocks : Clocks)
    (done : Str) where
  -- A step of a process that has not ended: a signal comes; `Run`, whose client is set, returns an
  -- error, after events in which the context ends only if it is done; the goroutine that waits for
  -- the context calls `Shutdown`; and `ListenAndServe` returns, as closed only after that.
  pub data Advance : Process → Process → Type 1 where
    signalled : {p : Process} → p.exit ≡ none → Advance p (record p { is_done = true })
    stops :
        {p : Process} (listing : Listing) (turns : ℕ → Turn clocks fl.F)
        (events : List (Wake clocks fl.F)) (op : Operator C fl.F) (err : Str)
        → p.exit ≡ none
        → p.has_stopped ≡ false
        → (run fl formats clocks (some api) done listing turns events op).returned ≡ some err
        → (any is_end events ≡ true → p.is_done ≡ true)
        → Advance p (log_stopped (some err) p)
    shuts_down :
        {p : Process}
        → p.exit ≡ none
        → p.is_done ≡ true
        → Advance p (record p { is_closing = true })
    closes : {p : Process} → p.exit ≡ none → p.is_closing ≡ true → Advance p (serve_returns none p)
    fails : {p : Process} (err : Str) → p.exit ≡ none → Advance p (serve_returns (some err) p)

  -- The process after any steps.
  pub data Runs (env : Environment) (s : Startup) : Process → Type 1 where
    booted : Runs env s (boot env s)
    and_then : {p q : Process} → Runs env s p → Advance p q → Runs env s q
