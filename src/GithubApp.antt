-- ===== src/GithubApp.antt =====
-- internal/githubapp/client.go. The packages go-github and ghinstallation are `Library`.
use platform_service_gitops.Prelude.{
  ℕ, ◌*◌, String, ◌<>◌, Bool, true, false, ◌&&◌, ◌||◌, Option, none, some, List, [], ◌∷◌, leb, ◌==◌,
  if◌then◌else◌,
}
use platform_service_gitops.Go.Int.{ℤ, pos}
use platform_service_gitops.Go.Error.{Result, ok, err, wrap}
use platform_service_gitops.Go.Eff.{Eff, pure, fail, try, ◌>>=◌}
use platform_service_gitops.Go.Time.{Time, zero_time, Duration, second}
use platform_service_gitops.Go.Strings.{Unicode, trim_prefix, trim_suffix, lower, trim_space}

pub record Credentials : Type 0 where
  pub app_id : ℤ
  pub private_key : String
  pub url : String

pub record InstallationResult : Type 0 where
  pub installed : Bool
  pub installation_id : ℤ
  pub account : String

pub record TokenResult : Type 0 where
  pub token : String
  pub expires_at : Time

-- github.InstallationTokenOptions, with the permission that the program sets
pub record TokenOptions : Type 0 where
  pub repositories : Option (List String)
  pub contents : Option String

-- github.Installation, read through GetID and GetAccount().GetLogin()
pub record Installation : Type 0 where
  pub id : ℤ
  pub login : String

-- github.InstallationToken; GitHub may leave the expiry out
pub record InstallationToken : Type 0 where
  pub token : String
  pub expires_at : Option Time

-- An answer of the API: the value or error, and the HTTP status if there was a response.
pub record Answer (A : Type 0) : Type 0 where
  pub value : Result A
  pub status_code : Option ℕ

-- github.Client.Apps
pub record Apps (W : Type 0) : Type 0 where
  -- Get(ctx, ""), read through GetSlug()
  pub get_app : Eff W (Result String)
  pub get_organization_installation : String → Eff W (Answer Installation)
  pub get_user_installation : String → Eff W (Answer Installation)
  pub create_installation_token : ℤ → TokenOptions → Eff W (Result InstallationToken)

-- What the clients need of the two packages. `apps` takes the transport as it is when the calls
-- are made, since a client shares it by reference.
pub record Library (W Transport Connection : Type 0) : Type 0 where
  pub new_apps_transport : ℤ → String → Result Transport
  pub with_base_url : String → Transport → Transport
  -- NewClient with the HTTP client of a transport and a timeout, and perhaps enterprise URLs
  pub new_client : Transport → Duration → Option (String × String) → Result Connection
  pub apps : Connection → Transport → Apps W

pub record Client (Transport Connection : Type 0) : Type 0 where
  pub connection : Connection
  pub transport : Transport

module _ (u : Unicode) where
  host_of : String → String
  unfolding lower trim_space trim_prefix trim_suffix
  host_of url =
      let h = lower u (trim_space u url) in
      let h' = trim_prefix (trim_prefix h "https://") "http://" in trim_suffix h' "/"

  unfoldable pub is_public : String → Bool
  unfolding host_of
  is_public url =
      let h = host_of url in
      h == "" || (h == "github.com" || (h == "api.github.com" || h == "www.github.com"))

abbrev pub request_timeout : Duration
request_timeout = pos (30 * second)

abbrev pub status_not_found : ℕ
status_not_found = 404

-- resp != nil && resp.StatusCode == http.StatusNotFound
abbrev pub is_404 : Option ℕ → Bool
is_404 none = false
is_404 (some code) = leb code status_not_found && leb status_not_found code

unfoldable pub installation_result : Answer Installation → Result InstallationResult
installation_result a = elim a.value [
  | err e ↦
      if is_404 a.status_code
      then ok (record { installed = false; installation_id = pos 0; account = "" })
      else err (wrap "checking installation: " e)
  | ok inst ↦ ok (record { installed = true; installation_id = inst.id; account = inst.login })
]

unfoldable pub token_options : String → TokenOptions
token_options repo_name =
    if repo_name == ""
    then record { repositories = none; contents = none }
    else record { repositories = some (repo_name ∷ []); contents = some "read" }

abbrev expiry : Option Time → Time
expiry none = zero_time
expiry (some t) = t

module _ {W Transport Connection : Type 0} (u : Unicode)
    (lib : Library W Transport Connection) where
  abbrev build :
      Transport
      → Option (String × String)
      → String
      → Transport
      → Result (Client Transport Connection)
  build atr urls message atr' = elim (lib.new_client atr request_timeout urls) [
    | err e ↦ err (wrap message e)
    | ok gh ↦ ok (record { connection = gh; transport = atr' })
  ]

  unfoldable pub new_client : Credentials → Result (Client Transport Connection)
  unfolding is_public trim_suffix
  new_client creds = elim (lib.new_apps_transport creds.app_id creds.private_key) [
    | err e ↦ err (wrap "building app transport: " e)
    | ok atr ↦
        if is_public u creds.url
        then build atr none "building client: " atr
        else let base = trim_suffix creds.url "/" <> "/" in
          build atr (some (base, base)) "configuring enterprise URLs: "
            (lib.with_base_url (trim_suffix creds.url "/" <> "/api/v3") atr)
  ]

module _ {W Transport Connection : Type 0} (lib : Library W Transport Connection) where
  abbrev apps_of : Client Transport Connection → Apps W
  apps_of c = lib.apps c.connection c.transport

  unfoldable pub verify_app : Client Transport Connection → Eff W (Result String)
  verify_app c =
      try (apps_of c).get_app (λ e. fail (wrap "authenticating as app: " e))
        (λ slug. pure (ok slug))

  unfoldable pub check_org_installation :
      Client Transport Connection → String → Eff W (Result InstallationResult)
  unfolding installation_result
  check_org_installation c org = do
    a ← (apps_of c).get_organization_installation org
    pure (installation_result a)

  unfoldable pub check_user_installation :
      Client Transport Connection → String → Eff W (Result InstallationResult)
  unfolding installation_result
  check_user_installation c user = do
    a ← (apps_of c).get_user_installation user
    pure (installation_result a)

  unfoldable pub mint_scoped_token :
      Client Transport Connection → ℤ → String → Eff W (Result TokenResult)
  unfolding token_options
  mint_scoped_token c installation_id repo_name =
      try ((apps_of c).create_installation_token installation_id (token_options repo_name))
        (λ e. fail (wrap "minting scoped token: " e))
        (λ tok. pure (ok (record { token = tok.token; expires_at = expiry tok.expires_at })))

  unfoldable pub mint_installation_token : Client Transport Connection → ℤ → Eff W (Result String)
  unfolding mint_scoped_token
  mint_installation_token c installation_id =
      try (mint_scoped_token c installation_id "") fail (λ result. pure (ok result.token))
