-- ===== src/Main/Startup.antt =====
-- What cmd/platform-service-gitops/main.go has done when it starts the manager.
use mathlib.Core.List.{append_assoc}
use platform_service_gitops.Main.Run.{
  checked, ReconcilerLibraries, app_installation_controller, git_repository_controller,
  github_instance_controller, kustomization_controller, run_manager,
}
use platform_service_gitops.Prelude.{List, String, [], ap, inl, inr, refl, ◌++◌, ◌∙◌, ◌∷◌, ◌≡◌}
use platform_service_gitops.K8s.Laws.{Keeps}
use platform_service_gitops.Go.Eff.{Eff, pure}
use platform_service_gitops.Go.Invariant.{Result-cases, err≢ok}
use platform_service_gitops.Go.Error.{Result, err, ok}
use platform_service_gitops.Controller.Setup.{Registration}
use platform_service_gitops.Main.Libraries.{ManagerLibrary, ManagerOptions, ClusterLibrary}
use platform_service_gitops.Main.Flags.{Options}

-- What is done to the manager, in order; `T` is what is recorded of a registration.
pub data Event (T Cluster : Type 0) : Type 0 where
  cluster_added : Cluster → Event T Cluster
  scheme_added : Event T Cluster
  completed : T → Event T Cluster
  healthz_added : String → Event T Cluster
  readyz_added : String → Event T Cluster
  started : Event T Cluster

abbrev pub noted : {A : Type 0} → A → Result (Unit {0}) → List A
noted e (ok x) = e ∷ []
noted e (err x) = []

module _ {W Config Cluster Manager T : Type 0} (ctrl : ManagerLibrary W Config Cluster Manager)
    (tag : Registration W → T) (log : W → List (Event T Cluster)) where
  -- The call adds the event to the log, if it succeeds.
  abbrev pub Logs : Event T Cluster → Eff W (Result (Unit {0})) → Type 0
  Logs e m = (w : W) → log (m w).1 ≡ log w ++ noted e (m w).0

  -- The log of one manager. A Start that fails has started the manager too.
  pub record ManagerLaws : Type 0 where
    pub add : (m : Manager) (c : Cluster) → Logs (cluster_added c) (ctrl.add m c)
    pub add_scheme : (m : Manager) → Logs scheme_added (ctrl.add_kustomize_scheme m)
    pub complete : (m : Manager) (r : Registration W) → Logs (completed (tag r)) (ctrl.complete m r)
    pub healthz :
        (m : Manager) (name : String) → Logs (healthz_added name) (ctrl.add_healthz_check m name)
    pub readyz :
        (m : Manager) (name : String) → Logs (readyz_added name) (ctrl.add_readyz_check m name)
    pub start : (m : Manager) (w : W) → log (ctrl.start m w).1 ≡ log w ++ (started ∷ [])
    pub new_manager : (c : Config) (o : ManagerOptions) → Keeps log (ctrl.new_manager c o)

  -- A run that does the given things in order, as far as it gets; all of them if it returns no
  -- error.
  pub record Progress (es : List (Event T Cluster)) (m : Eff W (Result (Unit {0}))) (w : W)
      : Type 0 where
    pub finished : List (Event T Cluster)
    pub left : List (Event T Cluster)
    pub in_order : es ≡ finished ++ left
    pub logged : log (m w).1 ≡ log w ++ finished
    pub complete : (m w).0 ≡ ok tt → left ≡ []

  checked-Progress :
      (e : Event T Cluster) (es : List (Event T Cluster)) (m rest : Eff W (Result (Unit {0})))
      (message : String) (w : W)
      → Logs e m
      → Progress es rest (m w).1
      → Progress (e ∷ es) (checked m message rest) w
  checked-Progress e es m rest message w logs p = elim (Result-cases (m w).0) [
    | inr (x, r) ↦ record {
      finished = [];
      left = e ∷ es;
      in_order = refl;
      logged = rw r (logs w ∙ ap (λ x. log w ++ noted e x) r);
      complete = λ h. absurd (err≢ok (rw r at h));
    }
    | inl (u, r) ↦ record {
      finished = e ∷ p.finished;
      left = p.left;
      in_order = ap (λ x. e ∷ x) p.in_order;
      logged = rw r (
          p.logged
          ∙ ap (λ x. x ++ p.finished) (logs w ∙ ap (λ x. log w ++ noted e x) r)
          ∙ append_assoc (log w) (e ∷ []) p.finished);
      complete = λ h. p.complete (rw r at h);
    }
  ]

  start-Progress :
      (m : Eff W (Result (Unit {0}))) (message : String) (w : W)
      → log (m w).1 ≡ log w ++ (started ∷ [])
      → Progress (started ∷ []) (checked m message (pure (ok tt))) w
  start-Progress m message w logs = elim (Result-cases (m w).0) [
    | inr (x, r) ↦ record {
      finished = started ∷ [];
      left = [];
      in_order = refl;
      logged = rw r logs;
      complete = λ h. refl;
    }
    | inl (u, r) ↦ record {
      finished = started ∷ [];
      left = [];
      in_order = refl;
      logged = rw r logs;
      complete = λ h. refl;
    }
  ]

module _ {W Config Cluster Access Manager Kubeconfig Transport Connection T : Type 0}
    (lib : ClusterLibrary W Config Cluster Access) (ctrl : ManagerLibrary W Config Cluster Manager)
    (libs : ReconcilerLibraries W Kubeconfig Transport Connection) (tag : Registration W → T) where
  -- All that is done to the manager: the platform cluster and the scheme, the four controllers, the
  -- two checks, and only then the start.
  unfoldable pub startup : Options → Cluster → String → Cluster → List (Event T Cluster)
  startup o platform_cluster pod_namespace onboarding_cluster =
      let onboarding = lib.client onboarding_cluster in
      let platform = lib.client platform_cluster in
      cluster_added platform_cluster
      ∷ scheme_added
      ∷ completed (tag (git_repository_controller libs onboarding platform pod_namespace o))
      ∷ completed (tag (github_instance_controller libs platform o))
      ∷ completed (tag (app_installation_controller libs onboarding platform o))
      ∷ completed (tag (kustomization_controller libs onboarding))
      ∷ healthz_added "healthz"
      ∷ readyz_added "readyz"
      ∷ started
      ∷ []

  module _ (log : W → List (Event T Cluster)) (L : ManagerLaws ctrl tag log) where
    pub run_manager-Progress :
        (o : Options) (platform : Cluster) (pod_namespace : String) (onboarding : Cluster)
        (m : Manager) (w : W)
        → Progress ctrl tag log
            (startup o platform pod_namespace onboarding)
            (run_manager lib ctrl libs o platform pod_namespace onboarding m)
            w
    unfolding run_manager startup
    run_manager-Progress o platform pod_namespace onboarding m w =
        checked-Progress ctrl tag log _ _ _ _ _ w (L.add m _) (
          checked-Progress ctrl tag log _ _ _ _ _ _ (L.add_scheme m) (
            checked-Progress ctrl tag log _ _ _ _ _ _ (L.complete m _) (
              checked-Progress ctrl tag log _ _ _ _ _ _ (L.complete m _) (
                checked-Progress ctrl tag log _ _ _ _ _ _ (L.complete m _) (
                  checked-Progress ctrl tag log _ _ _ _ _ _ (L.complete m _) (
                    checked-Progress ctrl tag log _ _ _ _ _ _ (L.healthz m _) (
                      checked-Progress ctrl tag log _ _ _ _ _ _ (L.readyz m _)
                        (start-Progress ctrl tag log _ _ _ (L.start m _)))))))))
