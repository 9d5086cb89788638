-- ===== src/Examples/Starts.antt =====
-- A start of the server on GCE with two allowed emails.
use mathlib.Core.List.{Memᴰ}
use cc_tunnel.Common.{
  ◌&&◌, ◌+◌, ◌≡◌, refl, ◌⊎◌, ◌++◌, true, false, Option, none, some, List, [], ◌∷◌, Text, codes,
  same_text, if◌then◌else◌, is_empty, map, select, not, length,
}
use cc_tunnel.Turn.Title.{trim_space}
use cc_tunnel.Remote.{post}
use cc_tunnel.Server.Admin.{admin_bearer_token, serve_http}
use cc_tunnel.Setup.{Environment, negsuc, split_and_trim}
use cc_tunnel.Setup.Providers.{GceSettings, docker_gce, gce_settings, Clients}
use cc_tunnel.Setup.Start.{Flags, Setup, serves, start}
use cc_tunnel.Setup.Emails.{join, split_and_trim-join}
use cc_tunnel.Setup.Route.{start-reconciles}

abbrev pieces : List Text
pieces = codes " a@x " ∷ codes "" ∷ codes "b@x" ∷ []

split_and_trim-join_example :
    split_and_trim 44 (join 44 pieces) ≡ select (λ p. not (is_empty p)) (map trim_space pieces)
split_and_trim-join_example = split_and_trim-join 44 pieces (refl, (refl, (refl, tt)))

abbrev emails : List Text
emails = codes "a@x" ∷ codes "b@x" ∷ []

abbrev environment : Environment
environment key =
    if same_text key (codes "EXECUTION_PROVIDER")
    then codes "docker_gce"
    else if same_text key (codes "CC_LOGIN_ENCRYPTION_KEY")
    then codes "00112233445566778899aabbccddeeff00112233445566778899AABBCCDDEEFF"
    else if same_text key (codes "RECONCILE_VMS_OIDC_AUDIENCE")
    then codes "aud"
    else if same_text key (codes "RECONCILE_VMS_ALLOWED_EMAILS")
    then codes "a@x,b@x"
    else if same_text key (codes "GCE_MAX_CONTAINERS")
    then codes "-3"
    else if same_text key (codes "GCE_ZONE")
    then codes ""
    else if same_text key (codes "GCE_VM_SUBNETWORK")
    then codes ""
    else codes "4"

abbrev flags : Flags
flags = record { addr = none; db_url = codes "" }

abbrev clients : Clients
clients = record {
  connects = λ url. true;
  container_manager = λ url. true;
  docker = true;
  gce = true;
}

abbrev key : Text
key = 0 ∷ 17 ∷ 34 ∷ 51 ∷ 68 ∷ 85 ∷ 102 ∷ 119 ∷ 136 ∷ 153 ∷ 170 ∷ 187 ∷ 204 ∷ 221 ∷ 238 ∷ 255 ∷ []

-- The maximum of containers is read as -3.
abbrev setup : Setup
setup = record {
  addr = codes ":4";
  db_url = codes "4";
  provider = docker_gce (gce_settings environment clients);
  encryption_key = key ++ key;
  reconcile_route = some (codes "aud", emails);
}

started : start environment flags clients ≡ serves true setup
unfolding start
started = refl

negative_maximum : (gce_settings environment clients).max_containers ≡ negsuc 2
unfolding gce_settings
negative_maximum = refl

abbrev validate : Text → Text → Option Text
validate t audience =
    if same_text t (codes "t") && same_text audience (codes "aud") then some (codes "b@x") else none

start-reconciles_example :
    ((settings : GceSettings) × (setup.provider ≡ docker_gce settings))
    × (is_empty (codes "aud") ≡ false)
    × (length setup.encryption_key ≡ 32)
    × (((serve_http validate (codes "aud") (λ n. (true, n + 1)) emails post (codes "Bearer t") 6).1
          ≡ 6)
        ⊎ ((post ≡ post)
            × ((token : Text) × (email : Text) × (admin_bearer_token (codes "Bearer t")
                  ≡ some token)
                × (validate token (codes "aud") ≡ some email)
                × Memᴰ email emails)))
unfolding trim_space
start-reconciles_example =
    start-reconciles environment flags clients true setup (codes "aud") emails emails started refl
      refl ((refl, refl, refl), ((refl, refl, refl), tt)) validate (λ n. (true, n + 1)) post
      (codes "Bearer t") 6
