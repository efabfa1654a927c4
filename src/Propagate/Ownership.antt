-- ===== src/Propagate/Ownership.antt =====
-- The objects in the MCP that this GitRepository does not own.
use platform_service_gitops.K8s.Client.{Client}
use mathlib.Core.Path.{subst}
use mathlib.Core.Option.{some-injective}
use platform_service_gitops.Prelude.{
  String, some, ◌≡◌, eq_iff, ◌==◌, Bool-cases, false, inl, inr, arith, if◌then◌else◌, ◌∙◌,
}
use platform_service_gitops.Propagate.{managed_by_annotation, managed_by_value, delete_owned}
use platform_service_gitops.K8s.Meta.{NamespacedName, ObjectMeta, same_key, key_of}
use platform_service_gitops.Api.GitRepository.{GitRepository}
use platform_service_gitops.Go.Invariant.{Result-cases}
use platform_service_gitops.Propagate.Laws.{IsOwned}
use platform_service_gitops.K8s.Laws.{StoreLaws}
use platform_service_gitops.Go.Dict.{at_key}
use platform_service_gitops.Go.Eff.{Eff, fail, pure, try}
use platform_service_gitops.Go.Error.{Error, Result, ok, wrap}

-- A deletion whose "not found" is forgiven ends in the world that the call leaves.
pub forgive-world :
    {W : Type 0} (m : Eff W (Result (Unit {0}))) (f : Error → Error) (w : W)
    → (try m (λ e. if e.not_found then pure (ok tt) else fail (f e)) (λ _. pure (ok tt)) w).1
      ≡ (m w).1
forgive-world m f w = ground arith

module _ {W O : Type 0} (c : Client W O) (meta : O → ObjectMeta) {sent : O → O}
    (L : StoreLaws c meta sent) where
  -- One half of Cleanup leaves the object at its key alone if the GitRepository does not own it.
  pub delete_owned-foreign :
      (gr : GitRepository) (message : String) (k : NamespacedName) (o : O) (w : W)
      → L.view w k ≡ some o
      → ¬ (IsOwned gr (meta o))
      → L.view (delete_owned c meta (managed_by_value gr) message k w).1 k ≡ some o
  unfolding delete_owned
  delete_owned-foreign gr message k o w held foreign = elim (Result-cases (c.get k w).0) [
    | inr (e, r) ↦ rw r (cc (L.get_keeps k w, held))
    | inl (x, r) ↦
        elim (Bool-cases
          (at_key managed_by_annotation (meta x).annotations == managed_by_value gr)) [
            | inr other ↦ rw (r, other) (cc (L.get_keeps k w, held))
            | inl owned ↦ absurd (
                foreign (
                  subst (λ y. IsOwned gr (meta y))
                    (some-injective x o (cc (L.get_ok k w x r, held))) ((eq_iff _ _).0 owned)))
          ]
  ]

  -- It leaves the objects at other keys alone too.
  pub delete_owned-other :
      (managed_by message : String) (k j : NamespacedName) (w : W)
      → same_key j k ≡ false
      → L.view (delete_owned c meta managed_by message k w).1 j ≡ L.view w j
  unfolding delete_owned
  delete_owned-other managed_by message k j w apart = elim (Result-cases (c.get k w).0) [
    | inr (e, r) ↦ rw r (cc (L.get_keeps k w))
    | inl (x, r) ↦
        elim (Bool-cases (at_key managed_by_annotation (meta x).annotations == managed_by)) [
          | inr other ↦ rw (r, other) (cc (L.get_keeps k w))
          | inl owned ↦
              let at_k : key_of (meta x) ≡ k = L.get_key k w x r in
              rw (r, owned, forgive-world (c.delete (key_of (meta x))) (wrap message), at_k)
                (L.delete_other k (c.get k w).1 j apart ∙ cc (L.get_keeps k w))
        ]
  ]
