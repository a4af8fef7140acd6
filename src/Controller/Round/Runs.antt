-- ===== src/Controller/Round/Runs.antt =====
-- The runs of a probe round: that the round ends, and with which matrix.
use cs331_t011_kubernetes_se.Common.{
  ℕ, zero, suc, ◌+◌, ◌*◌, ◌<◌, ◌≡◌, refl, sym, ap, ◌∙◌, ◌⊎◌, inl, inr, List, [], ◌∷◌, ◌++◌, Permᴰ,
  arith, length, length-perm, if◌then◌else◌,
}
use mathlib.Core.List.Permᴰ
use cs331_t011_kubernetes_se.Common.Int.{ℤ, pos, negsuc, is_nonpos, pos_part}
use mathlib.Core.Path.{subst}
use cs331_t011_kubernetes_se.Go.Text.{Str}
use cs331_t011_kubernetes_se.Go.Maps.{IsMap, get?, put, get?-put, get?-perm}
use cs331_t011_kubernetes_se.Go.Floats.{Floats}
use cs331_t011_kubernetes_se.Contract.{Endpoint, Matrix}
use cs331_t011_kubernetes_se.Controller.Probe.{Formats}
use cs331_t011_kubernetes_se.Controller.Round.{
  NetworkHealthCheckSpec, Job, Network, pair_key, max_concurrent, job_result, store_all, job_rows,
  jobs_of, run_probe_round,
}
use cs331_t011_kubernetes_se.Controller.Round.Steps.{
  RoundState, Step, acquire, store, release, Reaches, begin, next,
}

module _ (fl : Floats) (formats : Formats) (net : Network fl.F)
    (spec : NetworkHealthCheckSpec) where
  -- What each pair of the round has to store.
  abbrev pub entries : List Job → Matrix fl.F
  entries [] = []
  entries (j ∷ jobs) = (pair_key j, job_result fl formats net spec j) ∷ entries jobs

  entries-perm : {xs ys : List Job} → Permᴰ xs ys → Permᴰ (entries xs) (entries ys)
  entries-perm Permᴰ.nil = Permᴰ.nil
  entries-perm (Permᴰ.cons e p) =
      Permᴰ.cons (ap (λ j. (pair_key j, job_result fl formats net spec j)) e) (entries-perm p)
  entries-perm (Permᴰ.swap e f) =
      Permᴰ.swap (ap (λ j. (pair_key j, job_result fl formats net spec j)) e)
        (ap (λ j. (pair_key j, job_result fl formats net spec j)) f)
  entries-perm (Permᴰ.trans p q) = Permᴰ.trans (entries-perm p) (entries-perm q)

  get?-store_all :
      (k : Str) (jobs : List Job)
      → get? k (store_all fl formats net spec jobs) ≡ get? k (entries jobs)
  unfolding get? store_all
  get?-store_all k [] = refl
  get?-store_all k (j ∷ jobs) = ground (
    arith,
    get?-put (pair_key j) k (job_result fl formats net spec j) (store_all fl formats net spec jobs),
    get?-store_all k jobs,
  )

  -- How many steps are left.
  abbrev pub steps_left : RoundState fl.F → ℕ
  steps_left s = 3 * length s.waiting + 2 * length s.probing + length s.leaving

  Step-steps_left :
      {s s' : RoundState fl.F} → Step fl formats net spec s s' → suc (steps_left s') ≡ steps_left s
  Step-steps_left (acquire p h) = let n = length-perm p in omega arith
  Step-steps_left (store p) = let n = length-perm p in omega arith
  Step-steps_left (release p) = let n = length-perm p in omega arith

  -- Every run has taken its steps out of three for each pair.
  Reaches-steps_left :
      (jobs : List Job) {n : ℕ} {s : RoundState fl.F}
      → Reaches fl formats net spec jobs n s
      → n + steps_left s ≡ 3 * length jobs
  Reaches-steps_left jobs begin = omega arith
  Reaches-steps_left jobs (next r step) =
      let before = Reaches-steps_left jobs r in let left = Step-steps_left step in omega arith

  -- The pairs that have stored their result, the latest first, are those that neither wait nor
  -- probe, and the matrix is what they stored.
  Progressed : List Job → RoundState fl.F → Type 0
  Progressed jobs s =
      (stored : List Job) × Permᴰ (s.waiting ++ (s.probing ++ stored)) jobs
      × (s.matrix ≡ store_all fl formats net spec stored)

  Step-Progressed :
      (jobs : List Job) {s s' : RoundState fl.F}
      → Step fl formats net spec s s'
      → Progressed jobs s
      → Progressed jobs s'
  unfolding Progressed store_all
  Step-Progressed jobs (acquire {s} {j} {rest} p h) (stored, all, m) = (
    stored,
    Permᴰ.trans
        (Permᴰ.trans (Permᴰ.middle j rest (s.probing ++ stored))
          (Permᴰ.symm (Permᴰ.append_right (s.probing ++ stored) p)))
        all,
    m,
  )
  Step-Progressed jobs (store {s} {j} {rest} p) (stored, all, m) = (
    j ∷ stored,
    Permᴰ.trans
        (Permᴰ.append_left s.waiting
          (Permᴰ.trans (Permᴰ.middle j rest stored) (Permᴰ.symm (Permᴰ.append_right stored p))))
        all,
    ap (put (pair_key j) (job_result fl formats net spec j)) m,
  )
  Step-Progressed jobs (release p) (stored, all, m) = (stored, all, m)

  Reaches-Progressed :
      (jobs : List Job) {n : ℕ} {s : RoundState fl.F}
      → Reaches fl formats net spec jobs n s
      → Progressed jobs s
  unfolding Progressed store_all
  Reaches-Progressed jobs begin = ([], Permᴰ.append-nil jobs, refl)
  Reaches-Progressed jobs (next r step) = Step-Progressed jobs step (Reaches-Progressed jobs r)

  -- Where no two pairs of the round share a key, the matrix of a round in which every goroutine
  -- has stored its result holds for each pair just that result, whatever the order of the steps.
  pub Reaches-finished :
      (jobs : List Job) {n : ℕ} {s : RoundState fl.F}
      → Reaches fl formats net spec jobs n s
      → s.waiting ≡ []
      → s.probing ≡ []
      → IsMap (entries jobs)
      → (k : Str) → get? k s.matrix ≡ get? k (entries jobs)
  unfolding Progressed
  Reaches-finished jobs {s} r w p distinct k =
      let (stored, all, m) = Reaches-Progressed jobs r in
      let done =
        subst (λ ws. Permᴰ (ws ++ stored) jobs) p
          (subst (λ ws. Permᴰ (ws ++ (s.probing ++ stored)) jobs) w all) in
      ap (get? k) m
      ∙ get?-store_all k stored
      ∙ sym (get?-perm k (entries-perm (Permᴰ.symm done)) distinct)

  some_place : 0 < max_concurrent spec
  unfolding max_concurrent
  some_place = go spec.max_concurrent_probes
    where
      go : (n : ℤ) → 0 < (if is_nonpos n then 1 else pos_part n)
      go (pos zero) = omega arith
      go (pos (suc n)) = omega arith
      go (negsuc n) = omega arith

  Step-or_done :
      (s : RoundState fl.F)
      → (steps_left s ≡ 0) ⊎ ((s' : RoundState fl.F) × Step fl formats net spec s s')
  Step-or_done s = by_place s.waiting s.probing s.leaving
    where
      by_place :
          (w p l : List Job)
          → (3 * length w + 2 * length p + length l ≡ 0)
            ⊎ ((s' : RoundState fl.F) × Step fl formats net spec
                  (record { waiting = w; probing = p; leaving = l; matrix = s.matrix })
                  s')
      by_place w p (j ∷ l) = inr (_, release (Permᴰ.refl _))
      by_place w (j ∷ p) [] = inr (_, store (Permᴰ.refl _))
      by_place (j ∷ w) [] [] = inr (_, acquire (Permᴰ.refl _) some_place)
      by_place [] [] [] = inl refl

  -- A round ends and never gets stuck: a run has taken its steps out of three for each pair, so
  -- none is longer, and after any steps all goroutines are done or one can take a step.
  pub Reaches-terminates :
      (jobs : List Job) {n : ℕ} {s : RoundState fl.F}
      → Reaches fl formats net spec jobs n s
      → (n + steps_left s ≡ 3 * length jobs)
        × ((steps_left s ≡ 0) ⊎ ((s' : RoundState fl.F) × Step fl formats net spec s s'))
  Reaches-terminates jobs {s = s} r = (Reaches-steps_left jobs r, Step-or_done s)

  -- `runProbeRound`, whatever the order of its stores, gives each pair of agents just its result,
  -- where no two pairs share a key.
  pub run_probe_round_lem :
      (latest_first : List Job → List Job)
      → ((jobs : List Job) → Permᴰ (latest_first jobs) jobs)
      → (agents : List Endpoint) → IsMap (entries (jobs_of agents))
      → (k : Str)
      → get? k (run_probe_round fl formats net spec latest_first agents)
        ≡ get? k (entries (jobs_of agents))
  unfolding run_probe_round jobs_of job_rows
  run_probe_round_lem latest_first perm [] distinct k = refl
  run_probe_round_lem latest_first perm (e ∷ agents) distinct k =
      get?-store_all k (latest_first (jobs_of (e ∷ agents)))
      ∙ sym (get?-perm k (entries-perm (Permᴰ.symm (perm (jobs_of (e ∷ agents))))) distinct)
