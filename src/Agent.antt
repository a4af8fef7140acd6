-- ===== src/Agent.antt =====
-- code/pkg/prober.go and code/pkg/server.go: the agent that probes on request.
pub mod Net
pub mod Options
pub mod Attempt
pub mod Prober
pub mod Target
pub mod Server
pub mod Handshake
pub mod Listener
pub mod Process
