-- ===== src/Main/Process/Defaults.antt =====
-- The process that is started by `run` without flags.
use platform_service_gitops.Prelude.{
  Bool, List, Option, String, [], false, if◌then◌else◌, none, refl, some, true, ◌*◌, ◌==◌, ◌↔◌, ◌∷◌,
  ◌≡◌, arith, inl, inr, sym, ◌∙◌, ℕ,
}
use platform_service_gitops.Go.Int.{pos}
use platform_service_gitops.Go.Time.{Duration, minute}
use platform_service_gitops.Go.Error.{Result, ok}
use platform_service_gitops.Controller.AppInstallation.{set}
use platform_service_gitops.Main.Process.{Command, Process, RootCommand, main, root_cmd, run_cmd}
use platform_service_gitops.Main.Libraries.{ClusterLibrary, CrdLibrary, ManagerLibrary}
use platform_service_gitops.Main.Run.{ReconcilerLibraries, run_command}
use platform_service_gitops.Main.Flags.{
  Default, Flag, FlagSet, Options, common_flags, duration, read_options, run_flags, server_flags,
  switch, text,
}
use platform_service_gitops.Go.Invariant.{Result-cases, err≢ok}

abbrev pub named : {W : Type 0} → String → List (Command W) → Option (Command W)
named name [] = none
named name (c ∷ cs) = if c.use_line == name then some c else named name cs

abbrev pub default_of : String → List Flag → Option Default
default_of name [] = none
default_of name (f ∷ fs) = if f.name == name then some f.default else default_of name fs

-- pflag: a flag that is not on the command line has its default.
pub record Unset (flags : List Flag) (set : FlagSet) : Type 0 where
  pub of_text : (name d : String) → default_of name flags ≡ some (text d) → set.get_string name ≡ d
  pub of_switch :
      (name : String) (d : Bool) → default_of name flags ≡ some (switch d) → set.get_bool name ≡ d
  pub of_duration :
      (name : String) (d : Duration)
      → default_of name flags ≡ some (duration d)
      → set.get_duration name ≡ d

-- cobra: the first argument names the subcommand, whose flags are parsed from the others, and whose
-- error is returned. `parse` is pflag's.
pub record CobraLaws {W Logger : Type 0} (process : Process W Logger)
    (parse : List Flag → List String → Result FlagSet) : Type 0 where
  pub unset : (flags : List Flag) → (set : FlagSet) × (parse flags [] ≡ ok set) × Unset flags set
  pub runs :
      (root : RootCommand W) (name : String) (args : List String) (c : Command W) (set : FlagSet)
      → process.args ≡ name ∷ args
      → named name root.commands ≡ some c
      → parse c.flags args ≡ ok set
      → process.execute root ≡ c.run_e set

-- The options of a run without flags.
abbrev pub default_options : Options
default_options = record {
  metrics_addr = "0";
  probe_addr = ":8081";
  enable_leader_election = false;
  secure_metrics = true;
  enable_http2 = false;
  webhook_cert_path = "";
  webhook_cert_name = "tls.crt";
  webhook_cert_key = "tls.key";
  metrics_cert_path = "";
  metrics_cert_name = "tls.crt";
  metrics_cert_key = "tls.key";
  credential_namespace = "platform-service-gitops-system";
  flux_namespace = "flux-system";
  token_renew_buffer = pos (15 * minute);
}

read_options-Unset : (set : FlagSet) → Unset run_flags set → read_options set ≡ default_options
unfolding read_options run_flags common_flags server_flags
read_options-Unset set u =
    rw
      (
        u.of_text "metrics-bind-address" "0" refl,
        u.of_text "health-probe-bind-address" ":8081" refl,
        u.of_switch "leader-elect" false refl,
        u.of_switch "metrics-secure" true refl,
        u.of_switch "enable-http2" false refl,
        u.of_text "webhook-cert-path" "" refl,
        u.of_text "webhook-cert-name" "tls.crt" refl,
        u.of_text "webhook-cert-key" "tls.key" refl,
        u.of_text "metrics-cert-path" "" refl,
        u.of_text "metrics-cert-name" "tls.crt" refl,
        u.of_text "metrics-cert-key" "tls.key" refl,
        u.of_text "credential-namespace" "platform-service-gitops-system" refl,
        u.of_text "flux-namespace" "flux-system" refl,
        u.of_duration "token-renew-buffer" (pos (15 * minute)) refl,
      )
      refl

module _
    {W Config Cluster Access Manager Kubeconfig Transport Connection Crd CrdManager Logger : Type 0}
    (lib : ClusterLibrary W Config Cluster Access) (ctrl : ManagerLibrary W Config Cluster Manager)
    (libs : ReconcilerLibraries W Kubeconfig Transport Connection)
    (crd : CrdLibrary W Cluster Crd CrdManager) (process : Process W Logger) where
  -- With cobra and pflag as documented, and if the logger is obtained: a process that is started by
  -- `run` without flags reads the options that are listed in default_options, and exits with 0
  -- exactly if runCommand with these flags, called after the logger is set, returns no error.
  pub main-defaults :
      (parse : List Flag → List String → Result FlagSet) (logger : Logger) (w : W)
      → CobraLaws process parse
      → process.args ≡ "run" ∷ []
      → (process.get_logger w).0 ≡ ok logger
      → (set : FlagSet) × (read_options set ≡ default_options)
        × (((main lib ctrl libs crd process w).0 ≡ 0) ↔ (
            (run_command lib ctrl libs set (process.set_logger logger (process.get_logger w).1).1).0
            ≡ ok tt))
  unfolding main root_cmd run_cmd
  main-defaults parse logger w laws args got =
      let (set, parsed, u) = laws.unset run_flags in
      let v = (process.set_logger logger (process.get_logger w).1).1 in
      let runs : process.execute (root_cmd lib ctrl libs crd process)
          ≡ run_command lib ctrl libs set =
        laws.runs (root_cmd lib ctrl libs crd process) "run" [] (run_cmd lib ctrl libs crd process)
          set args refl parsed in
      (
        set,
        read_options-Unset set u,
        elim (Result-cases (run_command lib ctrl libs set v).0) [
          | inl (x, p) ↦ (λ h. p, λ h. rw (got, runs, p) refl)
          | inr (e, p) ↦
              (λ h. absurd (one≢zero (rw (got, runs, p) at h)), λ h. absurd (err≢ok (sym p ∙ h)))
        ],
      )
    where
      one≢zero : ◌≡◌ {A = ℕ} 1 0 → ⊥
      one≢zero h = omega (arith, h)
