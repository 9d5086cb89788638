-- ===== src/Agents.antt =====
-- apps/container-manager/internal/docker/manager.go: the operations on the local docker daemon. The
-- daemon and the metadata server answer through Daemon, a function of the number of calls made so
-- far; the state is the list of calls, the latest first. An error is its text, of which the daemon's own part comes from outside.
pub mod Api
pub mod Labels
pub mod Creates
pub mod Limits
pub mod Answers
pub mod Client
pub mod Runner
use cc_tunnel.Common.{
  ℕ, ℤ, pos, negsuc, is_zero, Bool, true, false, not, ◌&&◌, ◌||◌, Option, none, some, List, [], ◌∷◌,
  ◌++◌, map, Text, codes, if◌then◌else◌, ◌==◌, ltb, leb, length, is_empty, same_text, any, select,
}

-- A map's entries, in an order of iteration.
abbrev pub Labels : Type 0
Labels = List (Text × Text)

pub record RunAgentRequest : Type 0 where
  pub image : Text
  pub name : Text
  pub host_port : ℤ
  pub container_port : ℤ
  pub memory_bytes : ℤ
  pub nano_cpus : ℤ
  pub network : Text
  pub env : List Text
  pub labels : Labels

-- The options of ContainerCreate that RunAgent sets; `log_labels` is the option of the gcplogs
-- driver, none where the driver is not set.
pub record CreateOptions : Type 0 where
  pub image : Text
  pub name : Text
  pub env : List Text
  pub labels : Labels
  pub exposed_port : ℕ
  pub network_mode : Text
  pub memory : ℤ
  pub nano_cpus : ℤ
  pub bound_port : Option ℕ
  pub log_labels : Option Text

-- The credentials of a pull.
pub record RegistryAuth : Type 0 where
  pub username : Text
  pub password : Text
  pub server_address : Text

pub data Call : Type 0 where
  ping : Call
  inspect : (image : Text) → Call
  access_token : Call
  pull : (image : Text) → Option RegistryAuth → Call
  create : CreateOptions → Call
  start : (id : Text) → Call
  stop : (name : Text) (timeout : ℕ) → Call
  remove : (name : Text) (force : Bool) → Call
  list : (label status : Text) → Call

pub data Outcome (A : Type 0) : Type 0 where
  done : A → Outcome A
  failed : Text → Outcome A

-- `gives_token` is Token of the token source; `pulls` also covers reading the progress to its end.
pub record Daemon : Type 0 where
  pub pings : ℕ → Outcome (Unit {0})
  pub has_image : ℕ → Bool
  pub gives_token : ℕ → Outcome Text
  pub pulls : ℕ → Outcome (Unit {0})
  pub creates : ℕ → Outcome Text
  pub starts : ℕ → Outcome (Unit {0})
  pub stops : ℕ → Outcome (Unit {0})
  pub removes : ℕ → Outcome (Unit {0})
  pub lists : ℕ → Outcome (List (List Text))

abbrev pub Operation : Type 0 → Type 0
Operation A = List Call → Outcome A × List Call

abbrev pub ask : {A : Type 0} → (ℕ → Outcome A) → Call → Operation A
ask answer c calls = (answer (length calls), c ∷ calls)

abbrev pub continue :
    {A B : Type 0} → (A → Operation B) → Outcome A × List Call → Outcome B × List Call
continue f (done a, calls) = f a calls
continue f (failed e, calls) = (failed e, calls)

-- `prefix` is what the code puts before the error's text.
abbrev pub wrap : {A : Type 0} → Text → Outcome A × List Call → Outcome A × List Call
wrap prefix (done a, calls) = (done a, calls)
wrap prefix (failed e, calls) = (failed (prefix ++ (codes ": " ++ e)), calls)

-- The part before the first slash, none without a slash.
abbrev pub head_of : Text → Option Text
head_of [] = none
head_of (c ∷ s) =
    let rest = head_of s in
    if c == 47 then some [] else elim rest [ none ↦ none | some t ↦ some (c ∷ t) ]

-- A dot, a colon, or localhost.
abbrev pub is_host : Text → Bool
is_host s = any (λ c. (c == 46) || (c == 58)) s || same_text s (codes "localhost")

abbrev host_or_default : Option Text → Text
host_or_default none = codes "docker.io"
host_or_default (some s) = if not (is_empty s) && is_host s then s else codes "docker.io"

unfoldable pub registry_host : Text → Text
registry_host image = host_or_default (head_of image)

-- strings.HasSuffix
abbrev pub has_suffix : Text → Text → Bool
has_suffix [] suffix = is_empty suffix
has_suffix (c ∷ s) suffix = same_text (c ∷ s) suffix || has_suffix s suffix

unfoldable pub needs_google_auth : Text → Bool
unfolding registry_host
needs_google_auth image = has_suffix (registry_host image) (codes ".pkg.dev")

abbrev text_ltb : Text → Text → Bool
text_ltb [] [] = false
text_ltb [] (c ∷ t) = true
text_ltb (c ∷ s) [] = false
text_ltb (c ∷ s) (d ∷ t) = ltb c d || (c == d && text_ltb s t)

abbrev insert_text : Text → List Text → List Text
insert_text s [] = s ∷ []
insert_text s (t ∷ ts) =
    let rest = insert_text s ts in if text_ltb t s then t ∷ rest else s ∷ t ∷ ts

-- sort.Strings
abbrev sorted : List Text → List Text
sorted [] = []
sorted (s ∷ ss) = insert_text s (sorted ss)

abbrev join : List Text → Text
join [] = []
join (s ∷ []) = s
join (s ∷ t ∷ ts) = s ++ (44 ∷ join (t ∷ ts))

-- The gcplogs driver's option "labels".
unfoldable pub gcplogs_log_config : Labels → Text
gcplogs_log_config labels = join (sorted (map (λ (l : Text × Text). l.0) labels))

abbrev pub or_if_zero : ℕ → ℤ → ℤ
or_if_zero d n = if is_zero n then pos d else n

-- network.ParsePort of the number and "/tcp".
abbrev pub parse_port : ℤ → Option ℕ
parse_port (pos n) = if leb n 65535 then some n else none
parse_port (negsuc n) = none

-- `HostPort > 0`
abbrev pub positive : ℤ → Option ℕ
positive (pos n) = if ltb 0 n then some n else none
positive (negsuc n) = none

abbrev pub or_if_empty : Text → Text → Text
or_if_empty d s = if is_empty s then d else s

unfoldable pub create_options : Text → RunAgentRequest → ℕ → CreateOptions
unfolding gcplogs_log_config
create_options default_network req port = record {
  image = req.image;
  name = req.name;
  env = req.env;
  labels = req.labels;
  exposed_port = port;
  network_mode = or_if_empty default_network req.network;
  memory = or_if_zero 536870912 req.memory_bytes;
  nano_cpus = or_if_zero 500000000 req.nano_cpus;
  bound_port = positive req.host_port;
  log_labels = if is_empty req.labels then none else some (gcplogs_log_config req.labels);
}

-- strings.TrimPrefix(names[0], "/")
abbrev trimmed : Text → Text
trimmed [] = []
trimmed (c ∷ s) = if c == 47 then s else c ∷ s

unfoldable pub primary_name : List Text → Text
primary_name [] = []
primary_name (n ∷ ns) = trimmed n

-- `quoted` is %q of a text, `default_network` the manager's, which NewManager makes not empty. The
-- error of a port that ParsePort refuses is cut after the code's own words.
module _ (d : Daemon) (quoted : Text → Text) where
  abbrev pub token_auth : Text → Text → RegistryAuth
  token_auth host tok = record {
    username = codes "oauth2accesstoken";
    password = tok;
    server_address = host;
  }

  unfoldable pub google_registry_auth : Text → Operation RegistryAuth
  google_registry_auth host calls =
      continue (λ tok calls. (done (token_auth host tok), calls))
        (ask d.gives_token access_token calls)

  abbrev pub pull_with : Text → Outcome RegistryAuth × List Call → Outcome (Unit {0}) × List Call
  pull_with image p =
      continue (λ auth. ask d.pulls (pull image (some auth))) (wrap (codes "registry auth") p)

  unfoldable pub pull_image : Text → Operation (Unit {0})
  unfolding needs_google_auth google_registry_auth
  pull_image image calls =
      if needs_google_auth image
      then pull_with image (google_registry_auth (registry_host image) calls)
      else ask d.pulls (pull image none) calls

  unfoldable pub ensure_image : Text → Operation (Unit {0})
  unfolding pull_image
  ensure_image image calls =
      if d.has_image (length calls)
      then (done tt, inspect image ∷ calls)
      else pull_image image (inspect image ∷ calls)

  abbrev pub start_created : Text → Text → Operation Text
  start_created name id calls =
      continue (λ _ calls. (done id, calls))
        (wrap (codes "start container " ++ (quoted name ++ (codes " (id=" ++ (id ++ codes ")"))))
          (ask d.starts (start id) calls))

  abbrev pub create_on : Text → RunAgentRequest → Option ℕ → Operation Text
  create_on default_network req none calls = (failed (codes "parse container port"), calls)
  create_on default_network req (some port) calls = continue (start_created req.name) (
      wrap (codes "create container " ++ quoted req.name)
        (ask d.creates (create (create_options default_network req port)) calls))

  abbrev pub create_agent_container : Text → RunAgentRequest → Operation Text
  create_agent_container default_network req =
      create_on default_network req (parse_port req.container_port)

  unfoldable pub run_agent : Text → RunAgentRequest → Operation Text
  unfolding ensure_image create_options
  run_agent default_network req calls =
      continue (λ _. create_agent_container default_network req)
        (wrap (codes "ensure image " ++ quoted req.image) (ensure_image req.image calls))

  unfoldable pub list_agents : Operation (List Text)
  unfolding primary_name
  list_agents calls =
      continue (λ items calls. (done (map primary_name items), calls))
        (wrap (codes "list containers")
          (ask d.lists (list (codes "component=cc-remote-agent") (codes "running")) calls))

  unfoldable pub stop_agent : Text → Operation (Unit {0})
  stop_agent name calls =
      wrap (codes "stop container " ++ quoted name) (ask d.stops (stop name 10) calls)

  unfoldable pub remove_agent : Text → Operation (Unit {0})
  remove_agent name calls =
      wrap (codes "remove container " ++ quoted name) (ask d.removes (remove name true) calls)
