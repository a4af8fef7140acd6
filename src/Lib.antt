-- ===== src/Lib.antt =====
-- A verification library of the self-healing pod network operator in code/.
--
-- The program measures the network between the nodes of a cluster and names the blast radius of a
-- fault. An agent runs on each node: asked over HTTP it probes another node's agent and reports
-- how many rounds of the probe succeeded (code/pkg/server.go, code/pkg/prober.go). The operator asks
-- every agent to probe every other one, collects the reports in a matrix from "src->dst" to the
-- result, lets a tracker smooth out single bad rounds (code/pkg/analysis/hysteresis.go), classifies
-- the smoothed matrix (code/pkg/analysis/classifier.go) and plans a remediation for the verdict
-- (code/internal/controller/).
--
-- The files and the code that they model:
--   Common, Common/*     helpers: tests on numbers, lists, and `int` as integers that wrap at 2^63
--   Go/Text              strings as lists of bytes, and the functions of strings, sort and strconv
--                        that the code uses
--   Go/Maps              Go's maps as lists of keys and values without a key twice; the order in
--                        which a `range` visits a map is a parameter (`MapOrder`), a permutation
--                        that may differ at each loop of the code
--   Go/Floats            `float64` as a parameter (`Floats`): literals, tests, arithmetic, printing;
--                        `FloatLaws` holds what the proofs use of it
--   Contract             code/pkg/contract/types.go
--   Analysis/Config      code/pkg/analysis/config.go
--   Analysis/Scan        `classify`, steps 1 to 3: nodes, agent errors, failed and lossy pairs
--   Analysis/Tallies     `classify`, step 5: failures and pairs of each row and column
--   Analysis/Hypotheses  `classify`, steps 6 and 7: one function per hypothesis
--   Analysis/Classifier  `classify` from its steps, `Evaluate`
--   Analysis/Evidence, Counts, Tallied, Justified
--                        what a matrix shows, stated without the classifier's tables, and the
--                        lemmas that compare the tables with it
--   Analysis/Tracker     code/pkg/analysis/hysteresis.go, every operation
--   Controller/Stabilize `stabilizeMatrix` of code/internal/controller/controller.go
--   Controller/Remediation
--                        code/internal/controller/remediation.go
--   Controller/Probe     `probeEndpoint` of code/internal/controller/probe.go
--   Controller/Round     `runProbeRound` of code/internal/controller/prober.go: its goroutines as the
--                        steps of a machine (Round/Steps), and as a function of the order of their
--                        stores
--   Controller/Discovery `buildAgentEndpointsFromPods` and `discoverAgents` of
--                        code/internal/controller/controller.go
--   Controller/Reconcile `Reconcile` and `recordMetrics` of the same file
--   Controller/Status    code/internal/controller/status.go
--   Controller/Polling   `networkHealthCheckSpecFromResource` and `shouldRun` of
--                        code/internal/controller/networkhealthcheck_controller.go
--   Controller/Resource  `ReconcileNetworkHealthCheck` of code/internal/controller/controller.go, over
--                        a state of the cluster that the API server (`Api`) reads and changes
--   Controller/Sweep     `ReconcileAll` and `Run` of
--                        code/internal/controller/networkhealthcheck_controller.go
--   Controller/Metrics   code/internal/controller/metrics.go, as the list of the lines written
--   Controller/Stub      code/internal/controller/classifier_stub.go
--   Agent/Net            what the agent uses of the package net
--   Agent/Options        `ParseProbeOptions` of code/pkg/prober.go
--   Agent/Attempt        `probeTCP` of code/pkg/prober.go
--   Agent/Prober         `ExecuteProbe` of the same file
--   Agent/Target         the allowed networks and `validateTarget` of code/pkg/server.go
--   Agent/Server         the HTTP handlers of code/pkg/server.go
--   Agent/Handshake      one connection between `probeTCP` and `startDataListener`, as the moves of
--                        its two ends
--   Agent/Listener       `startDataListener` with any number of connections, and the settings of
--                        `Start` of code/pkg/server.go
--   Agent/Process        code/cmd/agent/main.go and `Start`: the process with its two servers
--   Manager              the settings and the HTTP handlers of code/cmd/manager/main.go
--   Manager/Process      `main` and `kubernetesConfig` of the same file, as a machine
--   System               the operator and its agents together: the requests of
--                        code/internal/controller/probe.go are answered by the handlers of
--                        code/pkg/server.go. `Wire` is what net/http, net/url and encoding/json do
--                        between them, and `Delivers` what is relied on of it: bytes that need no
--                        escape come through a URL as they are
--   Tests/*              sample data, runs of the model, and the theorems at concrete inputs
--
-- The correspondence: a struct is a record with the same fields, a function is a function of the same
-- name in lower case with underscores, a loop over a map is a recursion over its entries in the order
-- visited, a mutated map is passed on. A method that changes its receiver returns the new one, and a
-- handler returns its response with the probes that it sent. A `(value, error)` pair is an Option or
-- a sum of the errors.
--
-- Bounds: an `int` that the code counts up without a limit (the tracker's streaks) wraps at 2^63, and
-- the theorems on it bound the number of rounds by that. The sizes of maps and slices are natural
-- numbers. Quotients of counts are known to be exact in their order only below 2^26. No function runs
-- on fuel: every loop is over a list or over a number of rounds that is known when it starts, and the
-- printing of a number recurses on its quotient by ten.
--
-- Concurrency: a goroutine of a probe round is a job that waits for the semaphore, probes, stores
-- its result under the mutex and releases; any job that can may take the next step. What an agent
-- answers is a parameter for each pair, and in System it is what that agent's handler answers. The
-- listener's goroutines, the agent's process and that of the manager are machines too, in which any
-- step that is possible may be the next.
--
-- Not modelled: how time passes (the limits of a request are numbers, in Controller/Probe; that a
-- request meets one is an answer of the client, which is a parameter, and that a connection ends
-- at its deadline is a step of the listener), what net/http does below the handlers, the texts of
-- the errors of `validateTarget` and of the sweep (their cases are told apart), log messages but
-- those of the manager's `main` and the errors that `Run` logs, and the JSON encoding. The dynamic
-- client that `Run` and `ReconcileNetworkHealthCheck` look for is an `Option`, which stands for a
-- nil reconciler too. That the loop of `Run` may miss a tick of the ticker is part of the list of
-- events that it is given.
pub mod Common
pub mod Go
pub mod Contract
pub mod Analysis
pub mod Controller
pub mod Agent
pub mod Manager
pub mod System
mod Tests
