-- ===== src/Tests/Probing.antt =====
-- The agent on sample requests.
use mathlib.Core.Path.{◌≡◌, refl}
use mathlib.Core.Option.{bind}
use native.Mathlib.Omega.{arith}
use cs331_t011_kubernetes_se.Common.{
  ℕ, ◌-◌, ◌<◌, ◌≢◌, ◌⊎◌, ◌↔◌, true, false, none, some, List, [], ◌∷◌, ltb, if◌then◌else◌,
}
use cs331_t011_kubernetes_se.Common.Int.{pos, int_limit}
use cs331_t011_kubernetes_se.Go.Text.{Str, str, str_eq, has_prefix, contains, to_lower, atoi}
use cs331_t011_kubernetes_se.Go.Floats.{quot}
use cs331_t011_kubernetes_se.Agent.Net.{
  Ip, v4, Cidr, net4, NetSyntax, ReadsDefaults, join_host_port, is_loopback, is_link_local_unicast,
  is_multicast, is_unspecified, cidr_contains,
}
use cs331_t011_kubernetes_se.Agent.Options.{
  ProbeOptions, parse_probe_options, number_param, positive_or, with_port, or_tcp,
}
use cs331_t011_kubernetes_se.Agent.Attempt.{Exchange, probe_tcp}
use cs331_t011_kubernetes_se.Agent.Prober.{
  Rounds, record_attempt, probe_loop, end_result, finished_result, loss_rate_of, attempt_for,
  round_count, with_payload, execute_probe,
}
use cs331_t011_kubernetes_se.Agent.Prober.Counts.{
  successes_in, longest_burst, results, execute_probe_finished, execute_probe_cancelled,
}
use cs331_t011_kubernetes_se.Agent.Target.{
  default_allowed_cidrs, in_allowed, check_ip, check_host, validate_target,
}
use cs331_t011_kubernetes_se.Agent.Target.Guard.{
  IsOrdinary, InPrivateRange, validate_target_iff, validate_target-default,
}
use cs331_t011_kubernetes_se.Agent.Server.{
  Server, Request, World, probed, handler, handle_probe, probe_options, probe_target, bearer_auth,
}
use cs331_t011_kubernetes_se.Agent.Server.Access.{IsAuthorized, handle_probe-status}
use cs331_t011_kubernetes_se.Tests.Fractions.{fractions, fraction_laws}

-- The texts that the tests use.
abbrev pub table : NetSyntax
table = record {
  split_host_port =
      λ s. if str_eq s (str "10.1.2.3:9376") then some (str "10.1.2.3", str "9376") else none;
  parse_ip = λ s. if str_eq s (str "10.1.2.3") then some (v4 0x0a010203) else none;
  parse_cidr = λ s.
      if str_eq s (str "192.168.0.0/16")
      then some (net4 0xc0a80000 16)
      else if str_eq s (str "10.0.0.0/8")
      then some (net4 0x0a000000 8)
      else if str_eq s (str "172.16.0.0/12")
      then some (net4 0xac100000 12)
      else none;
}

table-ReadsDefaults : ReadsDefaults table
unfolding str str_eq
table-ReadsDefaults = record { private_16 = refl; private_8 = refl; private_12 = refl }

abbrev lan : List Cidr
lan = net4 0x0a000000 8 ∷ []

validate_target_iff_example : (validate_target table (str "10.1.2.3:9376") lan ≡ none) ↔ (
    (host : Str) × (port : Str) × (ip : Ip) × (table.split_host_port (str "10.1.2.3:9376")
      ≡ some (host, port))
    × (table.parse_ip host ≡ some ip)
    × (in_allowed table lan ip ≡ true)
    × IsOrdinary ip)
validate_target_iff_example = validate_target_iff table (str "10.1.2.3:9376") lan

table_splits : table.split_host_port (str "10.1.2.3:9376") ≡ some (str "10.1.2.3", str "9376")
unfolding str str_eq
table_splits = refl

table_parses : table.parse_ip (str "10.1.2.3") ≡ some (v4 0x0a010203)
unfolding str str_eq
table_parses = refl

validate_target-default_example :
    (validate_target table (str "10.1.2.3:9376") (default_allowed_cidrs table) ≡ none)
    ↔ ((n : ℕ) × (v4 0x0a010203 ≡ v4 n) × InPrivateRange n)
validate_target-default_example =
    validate_target-default table (str "10.1.2.3:9376") (str "10.1.2.3") (str "9376")
      (v4 0x0a010203) table-ReadsDefaults table_splits table_parses

-- Even rounds are answered, odd ones refused.
abbrev answered : Exchange
answered = record {
  dial_error = none;
  written = pos 1024;
  write_error = none;
  ack_error = none;
  elapsed = pos 4_000_000;
}

abbrev refused : Exchange
refused = record answered { dial_error = some (str "connection refused") }

abbrev pub line : Rounds
line = record { is_done = λ i. false; exchange = λ i. if ltb i 2 then answered else refused }

abbrev closing : Rounds
closing = record line { is_done = λ i. ltb 2 i }

abbrev pub five : ProbeOptions
five = record {
  target = str "10.1.2.3:9376";
  timeout = pos 2_000_000_000;
  count = pos 5;
  payload_bytes = pos 1024;
  probetype = str "tcp";
}

execute_probe_finished_example :
    let r = execute_probe fractions five line (pos 20_000_000) in
    let n = round_count five in
    let xs = results five line in
    (r.probe_count ≡ pos n)
    × (r.successful ≡ pos (successes_in xs))
    × (r.burst_loss_max ≡ pos (longest_burst xs))
    × (r.loss_rate ≡ quot fractions (n - successes_in xs) n)
    × (r.success ≡ ltb 0 (successes_in xs))
    × (r.agent_error ≡ false)
unfolding round_count
execute_probe_finished_example =
    execute_probe_finished fraction_laws five line (pos 20_000_000) (omega arith)
      (refl, (refl, (refl, (refl, (refl, tt)))))

-- Two of five rounds succeed, and the last three fail in a row.
five_counts :
    let r = execute_probe fractions five line (pos 20_000_000) in
    (r.successful ≡ pos 2) × (r.burst_loss_max ≡ pos 3) × (r.success ≡ true)
unfolding execute_probe round_count with_payload attempt_for probe_tcp str str_eq probe_loop
    record_attempt end_result finished_result loss_rate_of
five_counts = (refl, refl, refl)

execute_probe_cancelled_example :
    let r = execute_probe fractions five closing (pos 20_000_000) in
    (j : ℕ) × (j < round_count five)
    × (closing.is_done j ≡ true)
    × (r.success ≡ false)
    × (r.agent_error ≡ true)
    × (r.burst_loss_max ≡ pos (round_count five - j))
unfolding round_count
execute_probe_cancelled_example =
    execute_probe_cancelled fraction_laws five closing (pos 20_000_000)
      (λ never. cc (never.1.1.1.0))

-- A request of the operator.
abbrev pub asked : Request
asked = record {
  path = str "/probe";
  authorization = str "Bearer secret";
  query = λ name.
      if str_eq name (str "target")
      then str "10.1.2.3"
      else if str_eq name (str "count")
      then str "5"
      else [];
}

abbrev agent : Server
agent = record {
  control_port = str ":8080";
  data_port = str ":9376";
  node_name = str "a";
  pod_ip = str "10.1.2.4";
  probe_token = str "secret";
  allowed_cidrs = lan;
}

abbrev here : World
here = record {
  syntax = table;
  parse_duration = λ s. none;
  rounds = line;
  duration = pos 20_000_000;
}

serving : Unit {0}
unfolding handler handle_probe probe_options probe_target bearer_auth parse_probe_options
    number_param positive_or with_port or_tcp validate_target check_host check_ip in_allowed
    is_loopback is_link_local_unicast is_multicast is_unspecified cidr_contains join_host_port
    contains has_prefix to_lower atoi str str_eq
serving = tt

-- The parameters that are missing take their defaults.
asked_sends : (handler fractions here agent asked).1 ≡ record five { payload_bytes = pos 1024 } ∷ []
unfolding serving bind int_limit
asked_sends = refl

handle_probe-status_example :
    let (reply, sent) = handle_probe fractions here agent asked in
    ((¬ IsAuthorized agent asked) × (reply.status ≡ 401) × (sent ≡ []))
    ⊎ (IsAuthorized agent asked
        × (parse_probe_options here.parse_duration asked.query ≡ none)
        × (reply.status ≡ 400)
        × (sent ≡ []))
    ⊎ ((opts : ProbeOptions) × IsAuthorized agent asked
        × (parse_probe_options here.parse_duration asked.query ≡ some opts)
        × (validate_target table opts.target lan ≢ none)
        × (reply.status ≡ 403)
        × (sent ≡ []))
    ⊎ ((opts : ProbeOptions) × IsAuthorized agent asked
        × (parse_probe_options here.parse_duration asked.query ≡ some opts)
        × (validate_target table opts.target lan ≡ none)
        × (reply.status ≡ 200)
        × (reply.body ≡ probed (execute_probe fractions opts line (pos 20_000_000)))
        × (sent ≡ opts ∷ []))
handle_probe-status_example = handle_probe-status fractions here agent asked
