-- ===== src/Controller/Round/Steps.antt =====
-- The round as a machine: each goroutine waits, probes, and leaves once its result is stored.
use cs331_t011_kubernetes_se.Common.{ℕ, suc, ◌+◌, ◌<◌, List, [], ◌∷◌, Permᴰ, length}
use cs331_t011_kubernetes_se.Go.Maps.{put}
use cs331_t011_kubernetes_se.Go.Floats.{Floats}
use cs331_t011_kubernetes_se.Contract.{Matrix}
use cs331_t011_kubernetes_se.Controller.Probe.{Formats}
use cs331_t011_kubernetes_se.Controller.Round.{
  NetworkHealthCheckSpec, Job, Network, pair_key, max_concurrent, job_result,
}

-- The goroutines by where they are: before the semaphore, at the probe, and between the store and
-- the release. Those that are done are in no list.
pub record RoundState (F : Type 0) : Type 0 where
  pub waiting : List Job
  pub probing : List Job
  pub leaving : List Job
  pub matrix : Matrix F

module _ (fl : Floats) (formats : Formats) (net : Network fl.F)
    (spec : NetworkHealthCheckSpec) where
  -- One goroutine, any of those that can, takes a step.
  pub data Step : RoundState fl.F → RoundState fl.F → Type 0 where
    acquire :
        {s : RoundState fl.F} {j : Job} {rest : List Job}
        → Permᴰ s.waiting (j ∷ rest)
        → length s.probing + length s.leaving < max_concurrent spec
        → Step s (record s { waiting = rest; probing = j ∷ s.probing })
    store :
        {s : RoundState fl.F} {j : Job} {rest : List Job}
        → Permᴰ s.probing (j ∷ rest)
        → Step s (record s {
          probing = rest;
          leaving = j ∷ s.leaving;
          matrix = put (pair_key j) (job_result fl formats net spec j) s.matrix;
        })
    release :
        {s : RoundState fl.F} {j : Job} {rest : List Job}
        → Permᴰ s.leaving (j ∷ rest)
        → Step s (record s { leaving = rest })

  abbrev pub start : List Job → RoundState fl.F
  start jobs = record { waiting = jobs; probing = []; leaving = []; matrix = [] }

  -- The states that a number of steps leads to.
  pub data Reaches (jobs : List Job) : ℕ → RoundState fl.F → Type 0 where
    begin : Reaches jobs 0 (start jobs)
    next : {n : ℕ} {s s' : RoundState fl.F} → Reaches jobs n s → Step s s' → Reaches jobs (suc n) s'
