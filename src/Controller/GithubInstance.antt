-- ===== src/Controller/GithubInstance.antt =====
-- internal/controller/github/githubinstance_controller.go
pub mod Validity
use platform_service_gitops.Prelude.{String, ◌<>◌, none, List, [], ◌∷◌, length, if◌then◌else◌}
use platform_service_gitops.Go.Int.{pos}
use platform_service_gitops.Go.Error.{ok, err, wrap, Result}
use platform_service_gitops.Go.Eff.{Eff, pure, try, ◌>>=◌}
use platform_service_gitops.K8s.Meta.{
  NamespacedName, ConditionStatus, condition_true, condition_false, condition_unknown,
}
use platform_service_gitops.K8s.Client.{Client}
use platform_service_gitops.K8s.Objects.{Secret}
use platform_service_gitops.Api.GithubInstance.{SecretReference, GithubInstance}
use platform_service_gitops.Credentials.{from_secret, secret_key_of}
use platform_service_gitops.Controller.{
  requeue_interval, Return, done, failed, again_after, Runtime,
}
use platform_service_gitops.GithubApp.{Credentials}

-- The variables `status, reason, msg` of the loop.
pub record Verdict : Type 0 where
  pub status : ConditionStatus
  pub reason : String
  pub message : String

pub record GithubInstanceReconciler (W : Type 0) : Type 0 where
  pub github_instances : Client W GithubInstance
  pub secrets : Client W Secret
  pub credential_namespace : String

module _ {W : Type 0} (rt : Runtime W) (r : GithubInstanceReconciler W) where
  -- if _, err := credentials.FromSecret(secret); err != nil { …; break }
  abbrev pub after_parse : Result Credentials → Eff W Verdict → Eff W Verdict
  after_parse (err e) next =
      pure (record { status = condition_false; reason = "SecretMalformed"; message = e.message })
  after_parse (ok creds) next = next

  -- The loop over SecretRefs; a `break` ends it with the verdict of its round.
  unfoldable pub check_secrets : List SecretReference → Verdict → Eff W Verdict
  check_secrets [] v = pure v
  check_secrets (ref ∷ refs) v =
      let next = check_secrets refs v in
      let key = secret_key_of ref r.credential_namespace in
      let path = key.namespace <> ("/" <> key.name) in
      try (r.secrets.get key)
        (λ e.
          if e.not_found
          then pure (record {
            status = condition_false;
            reason = "SecretNotFound";
            message = "Credential Secret " <> (path <> " not found.");
          })
          else pure (record {
            status = condition_unknown;
            reason = "SecretReadError";
            message = "Reading Secret " <> (path <> (" failed: " <> (e.message <> ".")));
          }))
        λ secret. after_parse (from_secret rt.fmt secret) next

  abbrev all_valid : GithubInstance → Verdict
  all_valid inst = record {
    status = condition_true;
    reason = "SecretsValid";
    message =
        "All "
        <> (rt.fmt.decimal (pos (length inst.spec.secret_refs))
            <> " credential secrets are present and well-formed.");
  }

  unfoldable pub updated_instance : GithubInstance → Verdict → Eff W GithubInstance
  updated_instance inst v = do
    conditions ← rt.conditions.set_status_condition inst.status.conditions (record {
      type = "Ready";
      status = v.status;
      reason = v.reason;
      message = v.message;
      observed_generation = inst.meta.generation;
      last_transition_time = none;
    })
    pure (record inst {
      status = record { observed_generation = inst.meta.generation; conditions = conditions };
    })

  unfoldable pub reconcile : NamespacedName → Eff W Return
  unfolding check_secrets updated_instance
  reconcile req =
      try (r.github_instances.get req)
        (λ e. if e.not_found then pure done else pure (failed (wrap "fetching GitHubInstance: " e)))
        λ inst. do
          v ← check_secrets inst.spec.secret_refs (all_valid inst)
          inst' ← updated_instance inst v
          try (r.github_instances.patch_status inst inst')
              (λ e. pure (failed (wrap "patching status: " e)))
              (λ _. pure (again_after requeue_interval))
