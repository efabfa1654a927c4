-- ===== src/Tests/Sequence.antt =====
-- Sequences of passes of the GitRepository controller on the concrete world.
use mathlib.Core.Option.{some-injective}
use platform_service_gitops.Controller.GitRepository.Reconcile.{
  reconcile, report, reconcile_live, reconcile_resolution,
}
use platform_service_gitops.Credentials.{
  resolve, data_key, from_secret, read_secret, select_secret_ref,
}
use platform_service_gitops.Propagate
use platform_service_gitops.Prelude.{
  Option, [], inl, refl, some, sym, ◌*◌, ◌+◌, ◌∷◌, ◌≡◌, map, none, Bool-cases, inr, ◌∙◌,
}
use platform_service_gitops.K8s.Meta.{NamespacedName, key_of, same_key}
use platform_service_gitops.K8s.Objects.{FluxGitRepository, Secret}
use platform_service_gitops.K8s.Memory.{
  put, put_condition, member, keyed-ok, memory, memory-FrameLaws,
}
use platform_service_gitops.Api.GithubInstance.{GithubInstance}
use platform_service_gitops.Tests.Clusters.{World, flux_part, mcp, repositories_part, secrets_part}
use platform_service_gitops.Tests.World.{
  contested, instance_ab, key_b, meta_of, noon, nothing, reconciler, repo, rt,
}
use platform_service_gitops.Go.Int.{pos}
use platform_service_gitops.Go.Time.{minute}
use platform_service_gitops.Api.GitRepository.{conflict, GitRepository}
use platform_service_gitops.Propagate.{needs_rotation, managed_by_value, flux_meta, secret_meta}
use platform_service_gitops.Go.Dict.{lookup}
use platform_service_gitops.Go.Strings.{parse_int, read_number}
use platform_service_gitops.Controller.GitRepository.Target.{reconcile_target, sync_target}
use platform_service_gitops.Controller.GitRepository.Credential.{
  judge, resolve_credential, resolve_github_creds, set_resolved,
}
use platform_service_gitops.Controller.GitRepository.Base.{set_condition}
use platform_service_gitops.Controller.GitRepository.Propagation.{
  reconcile_propagate, sync_all, sync_targets,
}
use platform_service_gitops.K8s.Laws.{condition_at}
use platform_service_gitops.Controller.GitRepository.Status.{
  filter_propagate_status, set_propagate_status,
}
use platform_service_gitops.Controller.GitRepository.Status.Map.{SameTargets-refl}
use platform_service_gitops.Controller.GitRepository.Sequence.Distinct.{
  StatusFrom, StatusLaws, Stored,
}
use platform_service_gitops.Propagate.Elsewhere.Apart.{Apart}

abbrev pub app_secret : Secret
app_secret = record {
  meta = meta_of "credentials" "b" [];
  contents = ("appID", "12") ∷ ("privateKey", "pem") ∷ ("url", "https://github.com") ∷ [];
  type = "Opaque";
}

abbrev pub instance_b : GithubInstance
instance_b = record instance_ab { spec = record { secret_refs = key_b ∷ [] } }

-- The contested world, with credentials from which tokens can be minted.
abbrev pub working : World
working = record contested {
  platform_secrets = put (key_of app_secret.meta) (some app_secret) nothing;
  instances = put (key_of instance_b.meta) (some instance_b) nothing;
}

abbrev pub see : World → NamespacedName → Option FluxGitRepository
see w = w.flux

abbrev later : World → World
later w = record w { time = pos (noon + 60 * minute) }

abbrev first : World
first = (reconcile rt reconciler (key_of repo.meta) working).1

abbrev second : World
second = (reconcile rt reconciler (key_of repo.meta) (later first)).1

-- The passes do reach the MCP: the first reports the conflict.
first-conflict :
    (elim (first.repositories (key_of repo.meta)) [
      | none ↦ []
      | some gr ↦ map (λ ps. ps.phase) gr.status.propagated
    ])
    ≡ conflict ∷ []
unfolding reconcile reconcile_live resolve_credential judge set_resolved reconcile_resolution
    reconcile_propagate resolve_github_creds resolve select_secret_ref read_secret from_secret
    data_key lookup parse_int read_number sync_all sync_targets reconcile_target sync_target
    needs_rotation Propagate.reconcile report set_condition put_condition member condition_at
    filter_propagate_status set_propagate_status Propagate.managed_by_value
first-conflict = refl

abbrev pub stored : World → Stored
stored w = w.repositories

pub put-StatusFrom :
    (before : Stored) (x : GitRepository)
    → StatusFrom before x (put (key_of x.meta) (some x) before)
put-StatusFrom before x k o at = elim (Bool-cases (same_key k (key_of x.meta))) [
  | inl same ↦
      let here : x ≡ o = some-injective x o (sym (rw same refl) ∙ at) in
      inr (rw here (SameTargets-refl o.status.propagated))
  | inr other ↦ inl (o, sym (rw other refl) ∙ at, SameTargets-refl o.status.propagated)
]

pub memory-StatusLaws : StatusLaws (memory repositories_part (λ (o : GitRepository). o.meta)) stored
memory-StatusLaws = record {
  get_ok = λ k w o h. (keyed-ok (λ (o : GitRepository). o.meta) k (w.repositories k) o h).0;
  update = λ x w. put-StatusFrom w.repositories x;
  patch_status = λ old new w. put-StatusFrom w.repositories new;
}

pub mcp-Apart : Apart stored mcp
mcp-Apart = record {
  secrets = memory-FrameLaws secrets_part secret_meta stored (λ t w. refl);
  flux = memory-FrameLaws flux_part flux_meta stored (λ t w. refl);
}
