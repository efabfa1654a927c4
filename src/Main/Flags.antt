-- ===== src/Main/Flags.antt =====
-- addCommonFlags and addServerFlags of cmd/platform-service-gitops/main.go, and the flags that
-- runCommand and initCommand read.
use platform_service_gitops.Prelude.{Bool, List, String, [], false, true, ◌*◌, ◌++◌, ◌∷◌}
use platform_service_gitops.Go.Int.{pos}
use platform_service_gitops.Go.Time.{Duration, minute}

-- The default of a flag, which has one of three types.
pub data Default : Type 0 where
  text : String → Default
  duration : Duration → Default
  switch : Bool → Default

pub record Flag : Type 0 where
  pub name : String
  pub default : Default

abbrev flag : String → Default → Flag
flag name default = record { name = name; default = default }

unfoldable pub common_flags : List Flag
common_flags =
    flag "credential-namespace" (text "platform-service-gitops-system")
    ∷ flag "flux-namespace" (text "flux-system")
    ∷ flag "token-renew-buffer" (duration (pos (15 * minute)))
    ∷ flag "provider-name" (text "")
    ∷ flag "environment" (text "")
    ∷ flag "verbosity" (text "INFO")
    ∷ []

unfoldable pub server_flags : List Flag
server_flags =
    flag "metrics-bind-address" (text "0")
    ∷ flag "health-probe-bind-address" (text ":8081")
    ∷ flag "leader-elect" (switch false)
    ∷ flag "metrics-secure" (switch true)
    ∷ flag "enable-http2" (switch false)
    ∷ flag "webhook-cert-path" (text "")
    ∷ flag "webhook-cert-name" (text "tls.crt")
    ∷ flag "webhook-cert-key" (text "tls.key")
    ∷ flag "metrics-cert-path" (text "")
    ∷ flag "metrics-cert-name" (text "tls.crt")
    ∷ flag "metrics-cert-key" (text "tls.key")
    ∷ []

-- The flags of the command `run`; those of `init` are the common ones.
unfoldable pub run_flags : List Flag
unfolding common_flags server_flags
run_flags = common_flags ++ server_flags

-- cmd.Flags() of a parsed command line. The error beside the value is not read.
pub record FlagSet : Type 0 where
  pub get_string : String → String
  pub get_bool : String → Bool
  pub get_duration : String → Duration

-- The variables at the head of runCommand.
pub record Options : Type 0 where
  pub metrics_addr : String
  pub probe_addr : String
  pub enable_leader_election : Bool
  pub secure_metrics : Bool
  pub enable_http2 : Bool
  pub webhook_cert_path : String
  pub webhook_cert_name : String
  pub webhook_cert_key : String
  pub metrics_cert_path : String
  pub metrics_cert_name : String
  pub metrics_cert_key : String
  pub credential_namespace : String
  pub flux_namespace : String
  pub token_renew_buffer : Duration

unfoldable pub read_options : FlagSet → Options
read_options flags = record {
  metrics_addr = flags.get_string "metrics-bind-address";
  probe_addr = flags.get_string "health-probe-bind-address";
  enable_leader_election = flags.get_bool "leader-elect";
  secure_metrics = flags.get_bool "metrics-secure";
  enable_http2 = flags.get_bool "enable-http2";
  webhook_cert_path = flags.get_string "webhook-cert-path";
  webhook_cert_name = flags.get_string "webhook-cert-name";
  webhook_cert_key = flags.get_string "webhook-cert-key";
  metrics_cert_path = flags.get_string "metrics-cert-path";
  metrics_cert_name = flags.get_string "metrics-cert-name";
  metrics_cert_key = flags.get_string "metrics-cert-key";
  credential_namespace = flags.get_string "credential-namespace";
  flux_namespace = flags.get_string "flux-namespace";
  token_renew_buffer = flags.get_duration "token-renew-buffer";
}
