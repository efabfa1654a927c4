-- ===== src/Tests/Credentials.antt =====
-- The choice and the contents of credential Secrets.
use platform_service_gitops.Prelude.{[], refl, ◌↔◌, ◌∷◌, ◌≡◌}
use platform_service_gitops.GithubApp.{Credentials}
use platform_service_gitops.Credentials.{data_key, from_secret, select_secret_ref}
use platform_service_gitops.K8s.Objects.{Secret}
use platform_service_gitops.Tests.World.{key_a, key_b, meta_of, plain_fmt}
use platform_service_gitops.Go.Dict.{lookup}
use platform_service_gitops.Go.Int.{pos}
use platform_service_gitops.Go.Error.{ok}
use platform_service_gitops.Go.Strings.{parse_int, read_number}
use platform_service_gitops.Credentials.Selection.{IsSelected, select_secret_ref-eq-ok_iff}
use platform_service_gitops.Credentials.Contents.{IsCredential, from_secret-eq-ok_iff}

select_secret_ref-eq-ok_iff_example :
    (select_secret_ref plain_fmt (key_a ∷ key_b ∷ []) "b" ≡ ok key_b)
    ↔ IsSelected (key_a ∷ key_b ∷ []) "b" key_b
select_secret_ref-eq-ok_iff_example =
    select_secret_ref-eq-ok_iff plain_fmt (key_a ∷ key_b ∷ []) "b" key_b

-- The left-hand side holds here.
key_b-selected : select_secret_ref plain_fmt (key_a ∷ key_b ∷ []) "b" ≡ ok key_b
unfolding select_secret_ref
key_b-selected = refl

abbrev app_secret : Secret
app_secret = record {
  meta = meta_of "credentials" "a" [];
  contents = ("appID", "12") ∷ ("privateKey", "pem") ∷ ("url", "https://github.com") ∷ [];
  type = "Opaque";
}

abbrev app_credentials : Credentials
app_credentials = record { app_id = pos 12; private_key = "pem"; url = "https://github.com" }

from_secret-eq-ok_iff_example :
    (from_secret plain_fmt app_secret ≡ ok app_credentials)
    ↔ IsCredential plain_fmt app_secret app_credentials
from_secret-eq-ok_iff_example = from_secret-eq-ok_iff plain_fmt app_secret app_credentials

-- The right-hand side holds here.
app_secret_ok : from_secret plain_fmt app_secret ≡ ok app_credentials
unfolding from_secret data_key lookup parse_int read_number
app_secret_ok = refl
