-- ===== src/K8s/Rbac.antt =====
-- Role-based access control as Kubernetes documents it: a request is granted if a rule names its
-- group, resource and verb, or has "*" in that place. A client whose requests are not granted gets
-- an error, and nothing is done.
use platform_service_gitops.K8s.Client.{Client}
use platform_service_gitops.Prelude.{
  Bool, List, String, [], false, if◌then◌else◌, ◌&&◌, ◌<>◌, ◌==◌, ◌||◌, ◌∷◌,
}
use platform_service_gitops.K8s.Objects.{PermissionsRequest, PolicyRule}
use platform_service_gitops.Go.Eff.{Eff, fail}
use platform_service_gitops.Go.Error.{Error, Result}

unfoldable pub matches : String → List String → Bool
matches x [] = false
matches x (y ∷ ys) = (y == "*" || y == x) || matches x ys

unfoldable pub rules_allow : String → String → String → List PolicyRule → Bool
unfolding matches
rules_allow verb group resource [] = false
rules_allow verb group resource (r ∷ rs) =
    matches verb r.verbs && (matches group r.api_groups && matches resource r.resources)
    || rules_allow verb group resource rs

unfoldable pub allows : List PermissionsRequest → String → String → String → Bool
unfolding rules_allow
allows [] verb group resource = false
allows (p ∷ ps) verb group resource =
    rules_allow verb group resource p.rules || allows ps verb group resource

abbrev pub forbidden : Error
forbidden = record { not_found = false; message = "forbidden" }

abbrev granted :
    {W A : Type 0}
    → List PermissionsRequest
    → String
    → String
    → String
    → Eff W (Result A)
    → Eff W (Result A)
granted permissions verb group resource call =
    if allows permissions verb group resource then call else fail forbidden

-- The status of a kind is a resource of its own.
unfoldable pub authorized :
    {W O : Type 0} → List PermissionsRequest → String → String → Client W O → Client W O
authorized permissions group resource c = record {
  get = λ k. granted permissions "get" group resource (c.get k);
  list = λ namespace labels. granted permissions "list" group resource (c.list namespace labels);
  create = λ o. granted permissions "create" group resource (c.create o);
  update = λ o. granted permissions "update" group resource (c.update o);
  delete = λ k. granted permissions "delete" group resource (c.delete k);
  patch_status =
      λ old new. granted permissions "patch" group (resource <> "/status") (c.patch_status old new);
}
