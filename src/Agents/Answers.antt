-- ===== src/Agents/Answers.antt =====
-- What container-manager answers to a request to create an agent (handler.go, manager.go).
use cc_tunnel.Common.{
  ℕ, suc, ◌≡◌, refl, inl, inr, Option, none, some, List, ◌∷◌, ◌++◌, Text, codes, length, Bool-cases,
}
use cc_tunnel.Agents.{
  RunAgentRequest, CreateOptions, Call, create, start, Outcome, done, failed, Daemon, Operation,
  continue, wrap, ensure_image, create_options, run_agent, start_created, create_on,
  create_agent_container, parse_port,
}
use cc_tunnel.Agents.Api.{
  Response, created, status_of, CreateAgentRequest, agent_request, has_separator, lacks_field,
  create_agent, ran,
}

module _ (d : Daemon) (quoted : Text → Text) where
  -- Docker has created a container with this id and then started it, as the last two calls.
  abbrev pub Runs : Text → List Call → Type 0
  Runs id calls =
      (o : CreateOptions) × (rest : List Call) × (calls ≡ start id ∷ create o ∷ rest)
      × (d.creates (length rest) ≡ done id)
      × (d.starts (suc (length rest)) ≡ done tt)

  abbrev Ran : Outcome Text × List Call → Type 0
  Ran (done id, calls) = Runs id calls
  Ran (failed e, calls) = Unit

  start-Ran :
      (name id : Text) (o : CreateOptions) (rest : List Call) (out : Outcome (Unit {0}))
      → d.creates (length rest) ≡ done id
      → d.starts (suc (length rest)) ≡ out
      → Ran (start_created d quoted name id (create o ∷ rest))
  start-Ran name id o rest (done tt) made e = rw e (o, rest, refl, made, e)
  start-Ran name id o rest (failed x) made e = rw e tt

  create-Ran :
      (net : Text) (req : RunAgentRequest) (port : ℕ) (calls : List Call) (out : Outcome Text)
      → d.creates (length calls) ≡ out
      → Ran (create_on d quoted net req (some port) calls)
  create-Ran net req port calls (failed x) e = rw e tt
  create-Ran net req port calls (done id) e =
      rw e (start-Ran req.name id (create_options net req port) calls _ e refl)

  create_on-Ran :
      (net : Text) (req : RunAgentRequest) (port : Option ℕ) (calls : List Call)
      → Ran (create_on d quoted net req port calls)
  create_on-Ran net req none calls = tt
  create_on-Ran net req (some port) calls = create-Ran net req port calls _ refl

  wrapped-Ran :
      {A : Type 0} (f : A → Operation Text) (prefix : Text) (p : Outcome A × List Call)
      → ((a : A) (calls : List Call) → Ran (f a calls))
      → Ran (continue f (wrap prefix p))
  wrapped-Ran f prefix (done a, calls) k = k a calls
  wrapped-Ran f prefix (failed e, calls) k = tt

  run_agent-Ran :
      (net : Text) (req : RunAgentRequest) (calls : List Call)
      → Ran (run_agent d quoted net req calls)
  unfolding run_agent
  run_agent-Ran net req calls =
      wrapped-Ran (λ _. create_agent_container d quoted net req)
        (codes "ensure image " ++ quoted req.image) (ensure_image d quoted req.image calls)
        (λ _. create_on-Ran net req (parse_port req.container_port))

  -- A response and the calls after it, for the calls before.
  pub data Answered (calls : List Call) (p : Response × List Call) : Type 0 where
    refused : status_of p.0 ≡ 400 → p.1 ≡ calls → Answered calls p
    fails : status_of p.0 ≡ 500 → Answered calls p
    runs : (id : Text) → p.0 ≡ created id → Runs id p.1 → Answered calls p

  ran-Answered :
      (net : Text) (calls : List Call) (p : Outcome Text × List Call)
      → Ran p
      → Answered calls (ran d quoted net p.0, p.1)
  ran-Answered net calls (done id, calls') h = runs id refl h
  ran-Answered net calls (failed e, calls') h = fails refl

  -- Whatever docker and the metadata server answer, a request to create an agent gets the status
  -- 400, and docker is asked nothing; or 500; or the id of a container that docker has created and,
  -- by the last call, started.
  pub create_agent-Answered :
      (net : Text) (request : Option CreateAgentRequest) (calls : List Call)
      → Answered calls (create_agent d quoted net request calls)
  unfolding create_agent
  create_agent-Answered net none calls = refused refl refl
  create_agent-Answered net (some req) calls = elim (Bool-cases (lacks_field req)) [
    | inl e ↦ rw e (refused refl refl)
    | inr e ↦ elim (Bool-cases (has_separator req.name)) [
      | inl k ↦ rw (e, k) (refused refl refl)
      | inr k ↦
          rw (e, k)
            (ran-Answered net calls (run_agent d quoted net (agent_request req) calls)
              (run_agent-Ran net (agent_request req) calls))
    ]
  ]
