-- ===== src/Agents/Creates.antt =====
-- What container-manager asks of docker for a request to create an agent.
use cc_tunnel.Common.{
  ℕ, ℤ, pos, negsuc, is_zero, ◌≡◌, ◌≢◌, refl, ◌≤◌, inl, inr, true, false, Option, none, some, List,
  [], ◌∷◌, ◌++◌, Text, length, codes, is_empty, if-either, Bool-cases, arith, All, ap,
}
use cc_tunnel.Agents.{
  RunAgentRequest, CreateOptions, Call, ping, inspect, access_token, pull, create, start, stop,
  remove, Outcome, done, failed, Daemon, Operation, ask, continue, wrap, needs_google_auth,
  registry_host, google_registry_auth, token_auth, pull_with, pull_image, ensure_image,
  create_options, run_agent, start_created, create_on, create_agent_container, or_if_zero,
  or_if_empty, parse_port,
}
use cc_tunnel.Agents.Api.{
  CreateAgentRequest, agent_request, has_separator, lacks_field, create_agent, empty_or,
}
use cc_tunnel.Agents.Labels.{IsLabel, filter_labels-IsLabel}

-- The options of a container that may be created; for docker, 0 is no limit.
pub record IsProperContainer (o : CreateOptions) : Type 0 where
  pub image : is_empty o.image ≡ false
  pub name : is_empty o.name ≡ false
  pub separators : has_separator o.name ≡ false
  pub port : (1 ≤ o.exposed_port) × (o.exposed_port ≤ 65535)
  pub memory : o.memory ≢ pos 0
  pub cpus : o.nano_cpus ≢ pos 0
  pub network : is_empty o.network_mode ≡ false
  pub labels : All IsLabel o.labels

-- A pull carries Google's token if the image is on Artifact Registry, for that host, and no
-- credentials otherwise.
abbrev pub IsProper : Call → Type 0
IsProper (create o) = IsProperContainer o
IsProper (pull image none) = needs_google_auth image ≡ false
IsProper (pull image (some auth)) =
    (needs_google_auth image ≡ true) × (auth.server_address ≡ registry_host image)
IsProper (inspect image) = Unit
IsProper access_token = Unit
IsProper (start id) = Unit
IsProper ping = ⊥
IsProper (stop name timeout) = ⊥
IsProper (remove name force) = ⊥
IsProper (Call.list label status) = ⊥

-- Calls have been made after `calls`, and only such.
abbrev pub Adds : List Call → List Call → Type 0
Adds calls calls' = (made : List Call) × (calls' ≡ made ++ calls) × All IsProper made

add :
    (base : List Call) (x : Call) (calls : List Call)
    → IsProper x
    → Adds base calls
    → Adds base (x ∷ calls)
add base x calls p (made, e, h) = (x ∷ made, ap (◌∷◌ x) e, (p, h))

wrapped-Proper :
    (base : List Call) {A B : Type 0} (f : A → Operation B) (prefix : Text)
    (p : Outcome A × List Call)
    → Adds base p.1
    → ((a : A) (calls : List Call) → Adds base calls → Adds base (f a calls).1)
    → Adds base (continue f (wrap prefix p)).1
wrapped-Proper base f prefix (done a, calls) h k = k a calls h
wrapped-Proper base f prefix (failed e, calls) h k = h

module _ (base : List Call) (d : Daemon) (quoted : Text → Text) where
  token-Proper :
      (image : Text) (calls : List Call) (o : Outcome Text)
      → needs_google_auth image ≡ true
      → Adds base calls
      → Adds base
          (pull_with d quoted image (
            continue
              (λ tok cs. (done (token_auth d quoted (registry_host image) tok), cs))
              (o, access_token ∷ calls))).1
  token-Proper image calls (done tok) e h =
      add base (pull image (some (token_auth d quoted (registry_host image) tok)))
        (access_token ∷ calls) (e, refl) (add base access_token calls tt h)
  token-Proper image calls (failed x) e h = add base access_token calls tt h

  pull_image-Proper :
      (image : Text) (calls : List Call)
      → Adds base calls
      → Adds base (pull_image d quoted image calls).1
  unfolding pull_image google_registry_auth
  pull_image-Proper image calls h = elim (Bool-cases (needs_google_auth image)) [
    | inr e ↦ rw e (add base (pull image none) calls e h)
    | inl e ↦ rw e (token-Proper image calls (d.gives_token (length calls)) e h)
  ]

  ensure_image-Proper :
      (image : Text) (calls : List Call)
      → Adds base calls
      → Adds base (ensure_image d quoted image calls).1
  unfolding ensure_image
  ensure_image-Proper image calls h =
      if-either (λ p. Adds base p.1) (d.has_image (length calls)) (done tt, inspect image ∷ calls)
        (pull_image d quoted image (inspect image ∷ calls)) (add base (inspect image) calls tt h)
        (pull_image-Proper image (inspect image ∷ calls) (add base (inspect image) calls tt h))

  start_created-Proper :
      (name id : Text) (calls : List Call)
      → Adds base calls
      → Adds base (start_created d quoted name id calls).1
  start_created-Proper name id calls h =
      wrapped-Proper base (λ _ cs. (done id, cs))
        (codes "start container " ++ (quoted name ++ (codes " (id=" ++ (id ++ codes ")"))))
        (ask d.starts (start id) calls) (add base (start id) calls tt h) (λ _ cs k. k)

  create_on-Proper :
      (net : Text) (req : RunAgentRequest) (o : Option ℕ) (calls : List Call)
      → ((port : ℕ) → o ≡ some port → IsProperContainer (create_options net req port))
      → Adds base calls
      → Adds base (create_on d quoted net req o calls).1
  create_on-Proper net req none calls proper h = h
  create_on-Proper net req (some port) calls proper h =
      wrapped-Proper base (start_created d quoted req.name)
        (codes "create container " ++ quoted req.name)
        (ask d.creates (create (create_options net req port)) calls)
        (add base (create (create_options net req port)) calls (proper port refl) h)
        (λ id cs k. start_created-Proper req.name id cs k)

  run_agent-Proper :
      (net : Text) (req : RunAgentRequest) (calls : List Call)
      → ((port : ℕ)
          → parse_port req.container_port ≡ some port
          → IsProperContainer (create_options net req port))
      → Adds base calls
      → Adds base (run_agent d quoted net req calls).1
  unfolding run_agent
  run_agent-Proper net req calls proper h =
      wrapped-Proper base (λ _. create_agent_container d quoted net req)
        (codes "ensure image " ++ quoted req.image) (ensure_image d quoted req.image calls)
        (ensure_image-Proper req.image calls h)
        (λ _ cs k. create_on-Proper net req (parse_port req.container_port) cs proper k)

or_if_zero-limit : (d : ℕ) (n : ℤ) → 1 ≤ d → or_if_zero d n ≢ pos 0
or_if_zero-limit d (pos n) h e = absurd (ground arith)
or_if_zero-limit d (negsuc n) h e = cc

or_if_empty-some : (d s : Text) → is_empty d ≡ false → is_empty (or_if_empty d s) ≡ false
or_if_empty-some d [] h = h
or_if_empty-some d (c ∷ s) h = refl

parse_port-bounds :
    (n : ℤ) (port : ℕ) → is_zero n ≡ false → parse_port n ≡ some port → (1 ≤ port) × (port ≤ 65535)
parse_port-bounds (pos n) port h e = ground arith
parse_port-bounds (negsuc n) port h e = cc

create_options-Proper :
    (net : Text) (req : CreateAgentRequest) (port : ℕ)
    → is_empty net ≡ false
    → lacks_field req ≡ false
    → has_separator req.name ≡ false
    → parse_port req.container_port ≡ some port
    → IsProperContainer (create_options net (agent_request req) port)
unfolding create_options agent_request
create_options-Proper net req port named fields separators parsed = record {
  image = ground (arith, fields);
  name = ground (arith, fields);
  separators = separators;
  port = parse_port-bounds req.container_port port (ground (arith, fields)) parsed;
  memory = or_if_zero-limit 536870912 (agent_request req).memory_bytes (omega arith);
  cpus = or_if_zero-limit 500000000 (agent_request req).nano_cpus (omega arith);
  network = or_if_empty-some net (empty_or req.network) named;
  labels = filter_labels-IsLabel (empty_or req.labels);
}

-- When the default network has a name: whatever docker and the metadata server answer, a request
-- to create an agent stops and removes nothing, and makes no other container than one with an
-- image, a name without slashes and blanks, a port from 1 to 65535, a memory and a CPU value that
-- are not 0, a network, and labels that are allowed and of at most 256 bytes; and an image is
-- pulled with a token, for the image's own host, if that host is on Artifact Registry, and without
-- credentials otherwise.
pub create_agent-Proper :
    (d : Daemon) (quoted : Text → Text) (net : Text) (request : Option CreateAgentRequest)
    (calls : List Call)
    → is_empty net ≡ false
    → Adds calls (create_agent d quoted net request calls).1
unfolding create_agent
create_agent-Proper d quoted net none calls named = ([], refl, tt)
create_agent-Proper d quoted net (some req) calls named = elim (Bool-cases (lacks_field req)) [
  | inl e ↦ rw e ([], refl, tt)
  | inr e ↦ elim (Bool-cases (has_separator req.name)) [
    | inl k ↦ rw (e, k) ([], refl, tt)
    | inr k ↦
        rw (e, k)
          (run_agent-Proper calls d quoted net (agent_request req) calls
            (λ port. create_options-Proper net req port named e k) ([], refl, tt))
  ]
]
