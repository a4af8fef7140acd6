-- ===== src/Controller/Round/Places.antt =====
-- How many goroutines of a round can be between the acquisition and the release of the semaphore.
use cs331_t011_kubernetes_se.Common.{
  ℕ, zero, suc, ◌+◌, ◌≤◌, ◌≡◌, refl, ap, List, [], ◌∷◌, Permᴰ, arith, length, length-perm,
  if◌then◌else◌,
}
use mathlib.Core.List.Permᴰ
use mathlib.Core.Path.{subst}
use cs331_t011_kubernetes_se.Common.Int.{ℤ, pos, negsuc, is_nonpos, pos_part}
use cs331_t011_kubernetes_se.Go.Floats.{Floats}
use cs331_t011_kubernetes_se.Controller.Probe.{Formats}
use cs331_t011_kubernetes_se.Controller.Round.{NetworkHealthCheckSpec, Job, Network, max_concurrent}
use cs331_t011_kubernetes_se.Controller.Round.Steps.{
  RoundState, Step, acquire, store, release, start, Reaches, begin, next,
}

-- The number that the specification asks for; one, if that is not positive.
pub data Asks : ℤ → ℕ → Type 0 where
  as_many : {n : ℕ} → Asks (pos (suc n)) (suc n)
  none_at_all : Asks (pos 0) 1
  negative : {n : ℕ} → Asks (negsuc n) 1

max_concurrent-asked :
    (spec : NetworkHealthCheckSpec) {n : ℕ}
    → Asks spec.max_concurrent_probes n
    → max_concurrent spec ≡ n
unfolding max_concurrent
max_concurrent-asked spec asked = go spec.max_concurrent_probes asked
  where
    go : (m : ℤ) {n : ℕ} → Asks m n → (if is_nonpos m then 1 else pos_part m) ≡ n
    go (pos (suc m)) as_many = refl
    go (pos zero) none_at_all = refl
    go (negsuc m) negative = refl

module _ (fl : Floats) (formats : Formats) (net : Network fl.F)
    (spec : NetworkHealthCheckSpec) where
  -- The goroutines that hold a place.
  abbrev pub inside : RoundState fl.F → ℕ
  inside s = length s.probing + length s.leaving

  Step-inside :
      {s s' : RoundState fl.F}
      → Step fl formats net spec s s'
      → inside s ≤ max_concurrent spec
      → inside s' ≤ max_concurrent spec
  Step-inside (acquire p h) b = omega arith
  Step-inside (store p) b = let n = length-perm p in omega arith
  Step-inside (release p) b = let n = length-perm p in omega arith

  Reaches-inside :
      (jobs : List Job) {k : ℕ} {s : RoundState fl.F}
      → Reaches fl formats net spec jobs k s
      → inside s ≤ max_concurrent spec
  Reaches-inside jobs begin = omega arith
  Reaches-inside jobs (next r step) = Step-inside step (Reaches-inside jobs r)

  -- A run that only acquires fills as many places as there are, and jobs for them.
  filled :
      (jobs : List Job) (k : ℕ)
      → k ≤ length jobs
      → k ≤ max_concurrent spec
      → (s : RoundState fl.F) × Reaches fl formats net spec jobs k s
        × (length s.probing ≡ k)
        × (length s.leaving ≡ 0)
        × (length s.waiting + k ≡ length jobs)
  filled jobs zero few places = (start fl formats net spec jobs, begin, refl, refl, omega arith)
  filled jobs (suc k) few places =
      let (s, run, probing, leaving, left) = filled jobs k (omega arith) (omega arith) in
      one_more s s.waiting refl run probing leaving left
    where
      one_more :
          (s : RoundState fl.F) (w : List Job)
          → s.waiting ≡ w
          → Reaches fl formats net spec jobs k s
          → length s.probing ≡ k
          → length s.leaving ≡ 0
          → length s.waiting + k ≡ length jobs
          → (s' : RoundState fl.F) × Reaches fl formats net spec jobs (suc k) s'
            × (length s'.probing ≡ suc k)
            × (length s'.leaving ≡ 0)
            × (length s'.waiting + suc k ≡ length jobs)
      one_more s [] e run probing leaving left =
          let none_waits = ap length e in absurd (omega arith)
      one_more s (j ∷ w) e run probing leaving left =
          let some_wait = ap length e in
          (
            record s { waiting = w; probing = j ∷ s.probing },
            next run (acquire (subst (λ ws. Permᴰ s.waiting ws) e (Permᴰ.refl _)) (omega arith)),
            omega arith,
            leaving,
            omega arith,
          )

  -- Whatever the order of the steps, at most as many goroutines of a round as the specification
  -- asks for, one if it asks for none or a negative number, are between the acquisition of the
  -- semaphore and its release; and every number up to that and up to the number of pairs is
  -- reached.
  pub Reaches-places :
      {n : ℕ} (jobs : List Job) {k : ℕ} {s : RoundState fl.F}
      → Asks spec.max_concurrent_probes n
      → Reaches fl formats net spec jobs k s
      → (m : ℕ) → m ≤ n
      → m ≤ length jobs
      → (inside s ≤ n)
        × ((s' : RoundState fl.F) × Reaches fl formats net spec jobs m s' × (inside s' ≡ m))
  Reaches-places jobs asked run m fits many =
      let places = max_concurrent-asked spec asked in
      let few = Reaches-inside jobs run in
      let (s', run', probing, leaving, left) = filled jobs m many (omega arith) in
      (omega arith, (s', run', omega arith))
