-- ===== src/McpAccess/Names/Collision.antt =====
-- AccessLocalName and names that contain its separator.
use platform_service_gitops.Prelude.{sym}
use text.Mathlib.TextLemmas.{append_assoc}
use platform_service_gitops.Prelude.{String, ap, ◌<>◌, ◌∙◌, ◌≡◌}
use platform_service_gitops.Api.GitRepository.{GitRepository}
use platform_service_gitops.McpAccess.Names.{access_local_name}

shift :
    (a b c t : String)
    → (a <> ("--" <> b)) <> ("--" <> (c <> t)) ≡ a <> ("--" <> ((b <> ("--" <> c)) <> t))
shift a b c t =
    append_assoc a ("--" <> b) ("--" <> (c <> t))
    ∙ ap (λ x. a <> x) (append_assoc "--" b ("--" <> (c <> t)))
    ∙ ap (λ x. a <> ("--" <> x))
        (ap (λ x. b <> x) (sym (append_assoc "--" c t)) ∙ sym (append_assoc b ("--" <> c) t))

-- Two GitRepositories, one of name c in the namespace a--b and one of name b--c in the namespace a,
-- have the same local name for every control plane.
pub access_local_name_collides :
    (one other : GitRepository) (a b c namespace name : String)
    → one.meta.namespace ≡ a <> ("--" <> b)
    → one.meta.name ≡ c
    → other.meta.namespace ≡ a
    → other.meta.name ≡ b <> ("--" <> c)
    → access_local_name one namespace name ≡ access_local_name other namespace name
unfolding access_local_name
access_local_name_collides one other a b c namespace name p q p' q' =
    rw (p, q, p', q') (shift a b c ("--" <> (namespace <> ("--" <> name))))
