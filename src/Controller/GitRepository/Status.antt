-- ===== src/Controller/GitRepository/Status.antt =====
-- propagateKey, setPropagateStatus and filterPropagateStatus
pub mod Map
use platform_service_gitops.Prelude.{String, ◌<>◌, Bool, ◌&&◌, List, [], ◌∷◌, ◌==◌, if◌then◌else◌}
use platform_service_gitops.Api.GitRepository.{PropagateStatus}
use platform_service_gitops.McpAccess.Names.{contains}

unfoldable pub propagate_key : String → String → String
propagate_key namespace name = namespace <> ("/" <> name)

-- The test of setPropagateStatus: the same (namespace, name).
abbrev pub same_target : PropagateStatus → PropagateStatus → Bool
same_target a b =
    a.control_plane_namespace == b.control_plane_namespace
    && a.control_plane_name == b.control_plane_name

unfoldable pub set_propagate_status : List PropagateStatus → PropagateStatus → List PropagateStatus
set_propagate_status [] ps = ps ∷ []
set_propagate_status (p ∷ list) ps =
    if same_target p ps then ps ∷ list else p ∷ set_propagate_status list ps

abbrev pub status_key : PropagateStatus → String
status_key ps = propagate_key ps.control_plane_namespace ps.control_plane_name

unfoldable pub filter_propagate_status : List PropagateStatus → List String → List PropagateStatus
unfolding contains
filter_propagate_status [] desired = []
filter_propagate_status (ps ∷ list) desired =
    let rest = filter_propagate_status list desired in
    if contains desired (status_key ps) then ps ∷ rest else rest
