-- ===== src/Tests/Linking.antt =====
-- The operator and two agents that answer its requests.
use mathlib.Core.Path.{◌≡◌, refl}
use native.Mathlib.Omega.{arith}
use cs331_t011_kubernetes_se.Common.{
  zero, suc, ◌+◌, ◌*◌, ◌<◌, ◌≢◌, ◌⊎◌, false, none, some, [], ◌∷◌, if◌then◌else◌,
}
use cs331_t011_kubernetes_se.Common.Int.{pos, int_limit}
use cs331_t011_kubernetes_se.Go.Text.{Str, str, str_eq, has_prefix, contains, to_lower}
use cs331_t011_kubernetes_se.Agent.Net.{
  v4, net4, NetSyntax, join_host_port, is_loopback, is_link_local_unicast, is_multicast,
  is_unspecified, cidr_contains,
}
use cs331_t011_kubernetes_se.Agent.Options.{with_port, parse_probe_options}
use cs331_t011_kubernetes_se.Agent.Prober.{Rounds, round_count}
use cs331_t011_kubernetes_se.Agent.Target.{in_allowed, check_ip, check_host, validate_target}
use cs331_t011_kubernetes_se.Agent.Server.{Server, World, handler}
use cs331_t011_kubernetes_se.Controller.Probe.{
  ProbeCall, probe_kind, positive_else, probe_url, request_limit, client_limit, reports,
  probe_endpoint,
}
use cs331_t011_kubernetes_se.Controller.Reconcile.{
  or_if_zero, or_if_nonpos, equal_int, with_defaults,
}
use cs331_t011_kubernetes_se.System.{ask_agent}
use cs331_t011_kubernetes_se.System.Url.{ReadsTimeout, IsCall, options_of, parse-probe_url}
use cs331_t011_kubernetes_se.System.Limits.{second, request_limit_lem}
use cs331_t011_kubernetes_se.System.Conversation.{
  SharesToken, failed_with, request, probed_result, probe_endpoint-conversation,
}
use cs331_t011_kubernetes_se.System.Mesh.{Fleet, call_of}
use cs331_t011_kubernetes_se.Tests.Fractions.{fractions}
use cs331_t011_kubernetes_se.Tests.Reconciling.{formats, spec, job_ab, job_ba}
use cs331_t011_kubernetes_se.Tests.Wiring.{reader, reader-Delivers}

-- The texts of the two agents' addresses.
abbrev pub two_hosts : NetSyntax
two_hosts = record {
  split_host_port = λ s.
      if str_eq s (str "10.0.0.1:9376")
      then some (str "10.0.0.1", str "9376")
      else if str_eq s (str "10.0.0.2:9376")
      then some (str "10.0.0.2", str "9376")
      else none;
  parse_ip = λ s. some (v4 (if str_eq s (str "10.0.0.1") then 0x0a000001 else 0x0a000002));
  parse_cidr = λ s. none;
}

abbrev pub clear : Rounds
clear = record {
  is_done = λ i. false;
  exchange = λ i. record {
    dial_error = none;
    written = pos 1024;
    write_error = none;
    ack_error = none;
    elapsed = pos 4_000_000;
  };
}

abbrev pub world : World
world = record {
  syntax = two_hosts;
  parse_duration = λ s. if str_eq s (str "2s") then some (pos 2_000_000_000) else none;
  rounds = clear;
  duration = pos 20_000_000;
}

-- An agent that asks for a token.
abbrev pub guarded : Str → Server
guarded token = record {
  control_port = str ":8080";
  data_port = str ":9376";
  node_name = str "b";
  pod_ip = str "10.0.0.2";
  probe_token = token;
  allowed_cidrs = net4 0x0a000000 8 ∷ [];
}

-- Two agents with the operator's token, and two of which the second has another.
abbrev pub friends : Fleet
friends = record { server = λ at. guarded (str "secret"); world = λ src_at dst_at. world }

abbrev pub strangers : Fleet
strangers = record {
  server = λ at. guarded (elim at [ zero ↦ str "secret" | suc n ↦ str "other" ]);
  world = λ src_at dst_at. world;
}

timeout_read : ReadsTimeout formats world.parse_duration (pos 2_000_000_000)
unfolding str str_eq
timeout_read = record { plain = refl; filled = refl; read = refl }

calling : Unit {0}
unfolding with_defaults or_if_zero or_if_nonpos equal_int str str_eq probe_kind to_lower int_limit
calling = tt

pub job_ba-IsCall :
    IsCall (call_of fractions reader friends formats (with_defaults spec) job_ba) (str "10.0.0.2")
unfolding calling
job_ba-IsCall = record {
  at = refl;
  host_plain = refl;
  target_plain = refl;
  target_filled = refl;
  tcp = refl;
  timeout_positive = (_, refl);
  count_fits = omega arith;
  payload_fits = omega arith;
}

pub job_ab-IsCall :
    IsCall (call_of fractions reader friends formats (with_defaults spec) job_ab) (str "10.0.0.1")
unfolding calling
job_ab-IsCall = record {
  at = refl;
  host_plain = refl;
  target_plain = refl;
  target_filled = refl;
  tcp = refl;
  timeout_positive = (_, refl);
  count_fits = omega arith;
  payload_fits = omega arith;
}

unfoldable pub guarding : Unit {0}
unfolding options_of with_port contains has_prefix join_host_port str str_eq validate_target
    check_host check_ip in_allowed is_loopback is_link_local_unicast is_multicast is_unspecified
    cidr_contains with_defaults or_if_nonpos positive_else round_count
guarding = tt

pub timeout_default : ReadsTimeout formats world.parse_duration (with_defaults spec).probe_timeout
unfolding with_defaults or_if_zero equal_int
timeout_default = timeout_read

-- The call of the job between the two agents.
abbrev call : ProbeCall
call = call_of fractions reader friends formats (with_defaults spec) job_ba

parse-probe_url_example :
    parse_probe_options world.parse_duration (reader.value_of (probe_url formats call))
    ≡ some (options_of call)
parse-probe_url_example =
    parse-probe_url formats world.parse_duration call (str "10.0.0.2") job_ba-IsCall timeout_default
      reader reader-Delivers

-- What the agent reads, written out.
call_options : options_of call ≡ record {
  target = str "10.0.0.1:9376";
  timeout = pos 2_000_000_000;
  count = pos 5;
  payload_bytes = pos 1024;
  probetype = str "tcp";
}
unfolding guarding or_if_zero equal_int
call_options = refl

probe_endpoint-conversation_example :
    let s = guarded (str "secret") in
    let out = probe_endpoint formats (ask_agent fractions reader world s) call in
    let sent = (handler fractions world s (request fractions world formats reader s call)).1 in
    let result = probed_result fractions world formats reader s call in
    ((¬ SharesToken formats s) × (out ≡ failed_with 401) × (sent ≡ []))
    ⊎ (SharesToken formats s
        × (validate_target two_hosts (options_of call).target s.allowed_cidrs ≢ none)
        × (out ≡ failed_with 403)
        × (sent ≡ []))
    ⊎ (SharesToken formats s
        × (validate_target two_hosts (options_of call).target s.allowed_cidrs ≡ none)
        × (out ≡ reports result)
        × (sent ≡ options_of call ∷ []))
unfolding reader
probe_endpoint-conversation_example =
    probe_endpoint-conversation fractions world formats reader (guarded (str "secret")) call
      (str "10.0.0.2") job_ba-IsCall timeout_default reader-Delivers refl

call_timeout : (options_of call).timeout ≡ pos 2_000_000_000
unfolding guarding or_if_zero equal_int
call_timeout = refl

call_rounds : round_count (options_of call) ≡ 5
unfolding guarding or_if_zero equal_int
call_rounds = refl

call_fits : 2_000_000_000 * round_count (options_of call) + 2 * second < int_limit
unfolding int_limit
call_fits = let five = call_rounds in omega arith

request_limit_lem_example :
    (request_limit call ≡ pos (2_000_000_000 * round_count (options_of call) + second))
    × (client_limit call ≡ pos (2_000_000_000 * round_count (options_of call) + 2 * second))
request_limit_lem_example =
    request_limit_lem formats world.parse_duration call (str "10.0.0.2") job_ba-IsCall
      timeout_default reader reader-Delivers (options_of call) 2_000_000_000
      (parse-probe_url formats world.parse_duration call (str "10.0.0.2") job_ba-IsCall
        timeout_default reader reader-Delivers)
      call_timeout call_fits
