-- ===== src/K8s/Client.antt =====
-- client.Client for one kind of object. A call may fail in any way and changes the world.
use platform_service_gitops.Prelude.{String, List}
use platform_service_gitops.Go.Error.{Result}
use platform_service_gitops.Go.Eff.{Eff}
use platform_service_gitops.Go.Dict.{NilMap}
use platform_service_gitops.K8s.Meta.{NamespacedName}

pub record Client (W O : Type 0) : Type 0 where
  pub get : NamespacedName → Eff W (Result O)
  -- client.InNamespace and client.MatchingLabels
  pub list : String → NilMap → Eff W (Result (List O))
  pub create : O → Eff W (Result (Unit {0}))
  pub update : O → Eff W (Result (Unit {0}))
  pub delete : NamespacedName → Eff W (Result (Unit {0}))
  -- Status().Patch(ctx, changed, MergeFrom(original)): the original, then the changed object
  pub patch_status : O → O → Eff W (Result (Unit {0}))
