-- ===== src/Main/Command.antt =====
-- The order of things in runCommand of cmd/platform-service-gitops/main.go, from the reading of the
-- flags to the start of the manager.
use platform_service_gitops.Main.Access.{run_permissions}
use platform_service_gitops.Main.Startup.{
  Progress, ManagerLaws, Event, run_manager-Progress, startup,
}
use platform_service_gitops.Scheme.{Scheme, onboarding_scheme, platform_scheme}
use platform_service_gitops.Prelude.{List, String, ap, inl, inr, ◌++◌, ◌∙◌, ◌≡◌, ◌≢◌, ◌⊎◌}
use platform_service_gitops.K8s.Objects.{PermissionsRequest}
use platform_service_gitops.K8s.Laws.{Keeps}
use platform_service_gitops.Go.Eff.{Eff}
use platform_service_gitops.Go.Invariant.{Result-cases, err≢ok}
use platform_service_gitops.Go.Error.{Result, ok}
use platform_service_gitops.Main.Libraries.{ClusterLibrary, ManagerLibrary}
use platform_service_gitops.Main.Init.{access_manager, initialize_platform_cluster}
use platform_service_gitops.Main.Run.{ReconcilerLibraries, manager_options, run_command}
use platform_service_gitops.Main.Flags.{FlagSet, read_options}
use platform_service_gitops.Controller.Setup.{Registration}

module _ {W Config Cluster Access Manager Kubeconfig Transport Connection T : Type 0}
    (lib : ClusterLibrary W Config Cluster Access) (ctrl : ManagerLibrary W Config Cluster Manager)
    (libs : ReconcilerLibraries W Kubeconfig Transport Connection) (tag : Registration W → T)
    (log : W → List (Event T Cluster)) where
  -- What comes before the manager leaves its log alone.
  pub record BeforeLaws : Type 0 where
    pub get_config : Keeps log lib.get_config_or_die
    pub initialize_client :
        (id : String) (c : Config) (s : Scheme) → Keeps log (lib.initialize_client id c s)
    pub getenv : (name : String) → Keeps log (lib.getenv name)
    pub create_and_wait :
        (a : Access) (name purpose : String) (s : Scheme) (p : List PermissionsRequest)
        → Keeps log (lib.create_and_wait_for_cluster a name purpose s p)

  abbrev pub Run : FlagSet → Eff W (Result (Unit {0}))
  Run flags = run_command lib ctrl libs flags

  -- The run ended before there was a manager.
  abbrev pub NoManager : FlagSet → W → Type 0
  NoManager flags w = (log (Run flags w).1 ≡ log w) × ((Run flags w).0 ≢ ok tt)

  abbrev pub onboarding_call : Cluster → String → Eff W (Result Cluster)
  onboarding_call platform pod_namespace =
      lib.create_and_wait_for_cluster (access_manager lib platform pod_namespace) "onboarding"
        lib.purpose_onboarding onboarding_scheme run_permissions

  -- The two clusters were obtained, and the manager was set up for them in order.
  abbrev pub WithManager : FlagSet → W → Type 0
  WithManager flags w =
      (platform onboarding : Cluster) × let first = initialize_platform_cluster lib w in
        let pod = lib.getenv lib.env_pod_namespace first.1 in
        (first.0 ≡ ok platform)
        × ((onboarding_call platform pod.0 pod.1).0 ≡ ok onboarding)
        × Progress ctrl tag log
            (startup lib ctrl libs tag (read_options flags) platform pod.0 onboarding) (Run flags) w

  initialize-Keeps : BeforeLaws → Keeps log (initialize_platform_cluster lib)
  unfolding initialize_platform_cluster
  initialize-Keeps B w =
      let c = lib.get_config_or_die w in
      elim (Result-cases (lib.initialize_client "platform" c.0 platform_scheme c.1).0) [
        | inl (cl, r) ↦ rw r (B.initialize_client _ _ _ c.1 ∙ B.get_config w)
        | inr (e, r) ↦ rw r (B.initialize_client _ _ _ c.1 ∙ B.get_config w)
      ]

  -- If the calls before the manager leave its log alone, and those on the manager log themselves,
  -- then runCommand either fails before there is a manager, with the log as it was, or the two
  -- clusters were obtained, and the log goes on with a first part of the fixed list of
  -- registrations, which ends with the start, and with all of it if runCommand returns no error.
  pub run_command-ordered :
      (flags : FlagSet) (w : W)
      → BeforeLaws
      → ManagerLaws ctrl tag log
      → NoManager flags w ⊎ WithManager flags w
  unfolding run_command
  run_command-ordered flags w B L =
      let o = read_options flags in
      let first = initialize_platform_cluster lib w in
      let kept : log first.1 ≡ log w = initialize-Keeps B w in
      elim (Result-cases first.0) [
        | inr (e, r) ↦ inl (rw r kept, rw r (λ p. err≢ok p))
        | inl (platform, r) ↦
            let pod = lib.getenv lib.env_pod_namespace first.1 in
            let second = onboarding_call platform pod.0 pod.1 in
            let kept₂ : log second.1 ≡ log w =
              B.create_and_wait _ _ _ _ _ pod.1 ∙ B.getenv _ first.1 ∙ kept in
            elim (Result-cases second.0) [
              | inr (e, s) ↦ inl (rw (r, s) kept₂, rw (r, s) (λ p. err≢ok p))
              | inl (onboarding, s) ↦
                  let third =
                    ctrl.new_manager (lib.rest_config onboarding) (manager_options o) second.1 in
                  let kept₃ : log third.1 ≡ log w = L.new_manager _ _ second.1 ∙ kept₂ in
                  elim (Result-cases third.0) [
                    | inr (e, t) ↦ inl (rw (r, s, t) kept₃, rw (r, s, t) (λ p. err≢ok p))
                    | inl (m, t) ↦
                        let p =
                          run_manager-Progress lib ctrl libs tag log L o platform pod.0 onboarding m
                            third.1 in
                        inr (
                          platform,
                          onboarding,
                          (
                            r,
                            s,
                            record {
                              finished = p.finished;
                              left = p.left;
                              in_order = p.in_order;
                              logged = rw (r, s, t) (p.logged ∙ ap (λ x. x ++ p.finished) kept₃);
                              complete = λ h. p.complete (rw (r, s, t) at h);
                            },
                          ),
                        )
                  ]
            ]
      ]
