-- ===== src/Controller/Round/Keys.antt =====
-- Agents whose node names differ and hold no arrow: no two pairs of a round share a key.
use cs331_t011_kubernetes_se.Common.{
  ℕ, suc, ◌≡◌, ◌⊎◌, inl, inr, refl, ap, ◌∙◌, Bool, true, false, none, some, List, [], ◌∷◌, ◌++◌,
  Memᴰ, Permᴰ, arith, ◌==◌, any, any-false, All, All_at, Bool-cases, if◌then◌else◌,
}
use cs331_t011_kubernetes_se.Go.Text.{Str, str_eq, str_eq_refl, eq_of_str_eq, split_arrow}
use cs331_t011_kubernetes_se.Go.Text.Arrows.{key-injective}
use cs331_t011_kubernetes_se.Go.Maps.{IsMap, get?, get?_of_mem, has_key}
use cs331_t011_kubernetes_se.Go.Floats.{Floats}
use cs331_t011_kubernetes_se.Contract.{Endpoint}
use cs331_t011_kubernetes_se.Controller.Probe.{Formats}
use cs331_t011_kubernetes_se.Controller.Round.{
  NetworkHealthCheckSpec, Job, Network, jobs_from, job_rows, jobs_of, pair_key, job_result,
  run_probe_round,
}
use cs331_t011_kubernetes_se.Controller.Round.Runs.{entries, run_probe_round_lem}

mem-append {ℓ} : {A : Type ℓ} {x : A} (xs ys : List A) → Memᴰ x (xs ++ ys) → Memᴰ x xs ⊎ Memᴰ x ys
mem-append [] ys i = inr i
mem-append (y ∷ xs) ys (Memᴰ.head e) = inl (Memᴰ.head e)
mem-append (y ∷ xs) ys (Memᴰ.tail i) = elim (mem-append xs ys i) [
  | inl j ↦ inl (Memᴰ.tail j)
  | inr j ↦ inr j
]

-- The names of the agents' nodes differ from one another, and hold no arrow.
abbrev pub NamesDiffer : List Endpoint → Type 0
NamesDiffer [] = Unit
NamesDiffer (a ∷ rest) = (any (λ b. str_eq b.node_name a.node_name) rest ≡ false) × NamesDiffer rest

abbrev pub NamesPlain : List Endpoint → Type 0
NamesPlain agents = All (λ a. split_arrow a.node_name ≡ none) agents

-- No key of the later jobs is the key of an earlier one.
KeysApart : List Job → Type 0
KeysApart [] = Unit
KeysApart (j ∷ jobs) =
    ((x : Job) → Memᴰ x jobs → str_eq (pair_key x) (pair_key j) ≡ false) × KeysApart jobs

KeysApart-append :
    (xs ys : List Job)
    → KeysApart xs
    → KeysApart ys
    → ((x y : Job) → Memᴰ x xs → Memᴰ y ys → str_eq (pair_key y) (pair_key x) ≡ false)
    → KeysApart (xs ++ ys)
unfolding KeysApart
KeysApart-append [] ys h k apart = k
KeysApart-append (x ∷ xs) ys h k apart = (
  λ z i. elim (mem-append xs ys i) [ inl j ↦ h.0 z j | inr j ↦ apart x z (Memᴰ.head refl) j ],
  KeysApart-append xs ys h.1 k (λ u v i j. apart u v (Memᴰ.tail i) j),
)

mem-if {ℓ} :
    {A : Type ℓ} {x : A} (b : Bool) (y : A) (more : List A)
    → Memᴰ x (if b then more else y ∷ more)
    → (x ≡ y) ⊎ Memᴰ x more
mem-if true y more i = inr i
mem-if false y more (Memᴰ.head e) = inl e
mem-if false y more (Memᴰ.tail i) = inr i

KeysApart-if :
    (b : Bool) (j : Job) (more : List Job)
    → KeysApart (j ∷ more)
    → KeysApart (if b then more else j ∷ more)
unfolding KeysApart
KeysApart-if true j more h = h.1
KeysApart-if false j more h = h

jobs_from-mem :
    (i : ℕ) (src : Endpoint) (j : ℕ) (rest : List Endpoint) {x : Job}
    → Memᴰ x (jobs_from i src j rest)
    → (x.src ≡ src) × Memᴰ x.dst rest
unfolding jobs_from
jobs_from-mem i src j [] m = elim m [ ]
jobs_from-mem i src j (dst ∷ rest) m = elim (mem-if (i == j) _ (jobs_from i src (suc j) rest) m) [
  | inl e ↦ (ap (λ y. y.src) e, Memᴰ.head (ap (λ y. y.dst) e))
  | inr later ↦ let (same, to) = jobs_from-mem i src (suc j) rest later in (same, Memᴰ.tail to)
]

job_rows-mem :
    (agents : List Endpoint) (i : ℕ) (rows : List Endpoint) {x : Job}
    → Memᴰ x (job_rows agents i rows)
    → Memᴰ x.src rows
unfolding job_rows
job_rows-mem agents i [] m = elim m [ ]
job_rows-mem agents i (src ∷ rest) m =
    elim (mem-append (jobs_from i src 0 agents) (job_rows agents (suc i) rest) m) [
      | inl here ↦ Memᴰ.head (jobs_from-mem i src 0 agents here).0
      | inr later ↦ Memᴰ.tail (job_rows-mem agents (suc i) rest later)
    ]

-- Keys of jobs with plain sources differ where a pair of ends differs.
keys_differ :
    (x y : Job)
    → split_arrow x.src.node_name ≡ none
    → split_arrow y.src.node_name ≡ none
    → (str_eq x.src.node_name y.src.node_name ≡ false)
      ⊎ (str_eq x.dst.node_name y.dst.node_name ≡ false)
    → str_eq (pair_key x) (pair_key y) ≡ false
unfolding pair_key
keys_differ x y plain plain' differ = elim (Bool-cases (str_eq (pair_key x) (pair_key y))) [
  | inr e ↦ e
  | inl e ↦
      let (s, d) =
        key-injective x.src.node_name x.dst.node_name y.src.node_name y.dst.node_name plain plain'
          (eq_of_str_eq _ _ e) in
      elim differ [
        | inl apart ↦ absurd (not_same _ _ s apart)
        | inr apart ↦ absurd (not_same _ _ d apart)
      ]
]
  where
    not_same : (u v : Str) → u ≡ v → str_eq u v ≡ false → ⊥
    not_same u v same apart = ground (arith, str_eq_refl u, ap (str_eq u) same)

-- A row of the round: the destinations differ.
jobs_from-KeysApart :
    (i : ℕ) (src : Endpoint) (j : ℕ) (rest : List Endpoint)
    → split_arrow src.node_name ≡ none
    → NamesDiffer rest
    → KeysApart (jobs_from i src j rest)
unfolding jobs_from KeysApart
jobs_from-KeysApart i src j [] plain differ = tt
jobs_from-KeysApart i src j (dst ∷ rest) plain differ =
    KeysApart-if (i == j) _ (jobs_from i src (suc j) rest) (
      λ x m.
          let (same, to) = jobs_from-mem i src (suc j) rest m in
          keys_differ x _ (ap (λ e. split_arrow e.node_name) same ∙ plain) plain
            (inr (any-false (λ b. str_eq b.node_name dst.node_name) rest differ.0 x.dst to)),
      jobs_from-KeysApart i src (suc j) rest plain differ.1,
    )

-- The rows: the sources differ.
job_rows-KeysApart :
    (agents : List Endpoint) (i : ℕ) (rows : List Endpoint)
    → NamesDiffer agents
    → NamesPlain rows
    → NamesDiffer rows
    → KeysApart (job_rows agents i rows)
unfolding job_rows KeysApart
job_rows-KeysApart agents i [] differ plain rows_differ = tt
job_rows-KeysApart agents i (src ∷ rest) differ plain rows_differ =
    KeysApart-append (jobs_from i src 0 agents) (job_rows agents (suc i) rest)
      (jobs_from-KeysApart i src 0 agents plain.0 differ)
      (job_rows-KeysApart agents (suc i) rest differ plain.1 rows_differ.1)
      (λ x y m m'.
        let (same, _) = jobs_from-mem i src 0 agents m in
        let from = job_rows-mem agents (suc i) rest m' in
        keys_differ y x (All_at (λ a. split_arrow a.node_name ≡ none) rest plain.1 from)
          (ap (λ e. split_arrow e.node_name) same ∙ plain.0)
          (inl (
            ap (λ e. str_eq y.src.node_name e.node_name) same
            ∙ any-false (λ b. str_eq b.node_name src.node_name) rest rows_differ.0 y.src from)))

module _ (fl : Floats) (formats : Formats) (net : Network fl.F)
    (spec : NetworkHealthCheckSpec) where
  has_key-entries :
      (k : Str) (jobs : List Job)
      → ((x : Job) → Memᴰ x jobs → str_eq (pair_key x) k ≡ false)
      → has_key k (entries fl formats net spec jobs) ≡ false
  has_key-entries k [] apart = refl
  has_key-entries k (j ∷ jobs) apart =
      let rest = has_key-entries k jobs (λ x i. apart x (Memᴰ.tail i)) in
      ground (arith, apart j (Memᴰ.head refl))

  entries-IsMap : (jobs : List Job) → KeysApart jobs → IsMap (entries fl formats net spec jobs)
  unfolding KeysApart
  entries-IsMap [] h = tt
  entries-IsMap (j ∷ jobs) h = (has_key-entries (pair_key j) jobs h.0, entries-IsMap jobs h.1)

  -- No two pairs of a round share a key, if the agents' node names differ and hold no arrow.
  pub jobs_of-IsMap :
      (agents : List Endpoint)
      → NamesDiffer agents
      → NamesPlain agents
      → IsMap (entries fl formats net spec (jobs_of agents))
  unfolding jobs_of
  jobs_of-IsMap agents differ plain =
      entries-IsMap (jobs_of agents) (job_rows-KeysApart agents 0 agents differ plain differ)

  mem-entries :
      (x : Job) (jobs : List Job)
      → Memᴰ x jobs
      → Memᴰ (pair_key x, job_result fl formats net spec x) (entries fl formats net spec jobs)
  mem-entries x [] i = elim i [ ]
  mem-entries x (j ∷ jobs) (Memᴰ.head e) =
      Memᴰ.head (ap (λ y. (pair_key y, job_result fl formats net spec y)) e)
  mem-entries x (j ∷ jobs) (Memᴰ.tail i) = Memᴰ.tail (mem-entries x jobs i)

  -- If the agents' node names differ and hold no arrow, the matrix of a round, whatever the order
  -- of its stores, holds for each of its pairs just that pair's result.
  pub run_probe_round-results :
      (latest_first : List Job → List Job)
      → ((jobs : List Job) → Permᴰ (latest_first jobs) jobs)
      → (agents : List Endpoint) → NamesDiffer agents
      → NamesPlain agents
      → (x : Job) → Memᴰ x (jobs_of agents)
      → get? (pair_key x) (run_probe_round fl formats net spec latest_first agents)
        ≡ some (job_result fl formats net spec x)
  run_probe_round-results latest_first perm agents differ plain x member =
      let apart = jobs_of-IsMap agents differ plain in
      run_probe_round_lem fl formats net spec latest_first perm agents apart (pair_key x)
      ∙ get?_of_mem (pair_key x) (job_result fl formats net spec x) _ apart
          (mem-entries x (jobs_of agents) member)
