-- ===== src/Propagate/Elsewhere/Apart.antt =====
-- internal/propagate on an MCP whose calls leave a part of the world alone.
use platform_service_gitops.Propagate.{flux_meta, secret_meta, managed_by_value}
use mathlib.Core.Path.{subst}
use platform_service_gitops.K8s.Client.{Client}
use platform_service_gitops.K8s.Objects.{McpClient}
use platform_service_gitops.Prelude.{sym, refl, ◌≡◌}
use platform_service_gitops.K8s.Meta.{NamespacedName}
use platform_service_gitops.Go.Invariant.{Preserves}
use platform_service_gitops.K8s.Laws.{FrameLaws, Keeps}
use platform_service_gitops.Go.Eff.{Eff}
use platform_service_gitops.Propagate.Cleanup.{delete_owned-frame}
use platform_service_gitops.Propagate.Elsewhere.{Safe, sync_flux-Preserves}

-- The calls on the MCP leave what is looked at alone.
pub record Apart {W V : Type 0} (see : W → V) (mcp : McpClient W) : Type 0 where
  pub secrets : FrameLaws mcp.secrets see
  pub flux : FrameLaws mcp.flux_git_repositories see

-- A call that keeps every value of what is looked at leaves it alone.
pub Keeps-each :
    {W V A : Type 0} (see : W → V) (m : Eff W A)
    → ((v : V) → Preserves (λ w. see w ≡ v) m)
    → Keeps see m
Keeps-each see m h w = (h (see w)).at w refl

module _ {W V : Type 0} (see : W → V) (Q : V → Type 0) where
  -- What is looked at has a property.
  abbrev pub On : W → Type 0
  On w = Q (see w)

  pub Keeps-On : {A : Type 0} {m : Eff W A} → Keeps see m → Preserves On m
  Keeps-On h = record { at = λ w p. subst Q (sym (h w)) p }

  module _ {O : Type 0} (c : Client W O) (F : FrameLaws c see) where
    pub frame_get : (j : NamespacedName) → Preserves On (c.get j)
    frame_get j = Keeps-On (F.get_frame j)

    pub frame_create : (o : O) → Preserves On (c.create o)
    frame_create o = Keeps-On (F.create_frame o)

    pub frame_update : (o : O) → Preserves On (c.update o)
    frame_update o = Keeps-On (F.update_frame o)

  pub Apart-Safe : (mcp : McpClient W) → Apart see mcp → Safe On mcp
  Apart-Safe mcp a = record {
    get_secret = λ j. Keeps-On (a.secrets.get_frame j);
    create_secret = λ s. Keeps-On (a.secrets.create_frame s);
    update_secret = λ s. Keeps-On (a.secrets.update_frame s);
    delete_secret = λ gr message j.
        Keeps-On (
          delete_owned-frame mcp.secrets secret_meta see a.secrets (managed_by_value gr) message j);
    sync_flux = λ gr namespace name.
        sync_flux-Preserves mcp gr namespace name (frame_get _ a.flux _)
          (λ _ _ _ _ _. frame_create _ a.flux _) (λ _ _ _ _ _. frame_update _ a.flux _);
    delete_flux = λ gr message j. Keeps-On (
        delete_owned-frame mcp.flux_git_repositories flux_meta see a.flux (managed_by_value gr)
          message j);
  }
