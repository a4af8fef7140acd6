-- ===== src/Controller/Round/Sizes.antt =====
-- How many goroutines a round has.
use cs331_t011_kubernetes_se.Common.{
  ℕ, suc, ◌+◌, ◌*◌, ◌≤◌, ◌≡◌, List, [], ◌∷◌, arith, length, if◌then◌else◌, ltb, leb, ◌&&◌,
  length-append,
}
use cs331_t011_kubernetes_se.Contract.{Endpoint}
use cs331_t011_kubernetes_se.Controller.Round.{jobs_from, job_rows, jobs_of}

length-jobs_from :
    (i : ℕ) (src : Endpoint) (j : ℕ) (agents : List Endpoint)
    → length (jobs_from i src j agents) + (if leb j i && ltb i (j + length agents) then 1 else 0)
      ≡ length agents
unfolding jobs_from
length-jobs_from i src j [] = ground arith
length-jobs_from i src j (dst ∷ rest) = ground (arith, length-jobs_from i src (suc j) rest)

length-job_rows :
    (all : List Endpoint) (i : ℕ) (rows : List Endpoint)
    → i + length rows ≤ length all
    → length (job_rows all i rows) + length rows ≡ length rows * length all
unfolding job_rows
length-job_rows all i [] h = omega arith
length-job_rows all i (src ∷ rest) h =
    let row = length-jobs_from i src 0 all in
    let more = length-job_rows all (suc i) rest (omega arith) in
    let split = length-append (jobs_from i src 0 all) (job_rows all (suc i) rest) in ground arith

-- A round has one goroutine for each two different places in the list of agents, in each
-- direction.
pub length-jobs_of :
    (agents : List Endpoint)
    → length (jobs_of agents) + length agents ≡ length agents * length agents
unfolding jobs_of
length-jobs_of agents = length-job_rows agents 0 agents (omega arith)
