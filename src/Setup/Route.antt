-- ===== src/Setup/Route.antt =====
-- Who may use the reconcile endpoint of a server that has started.
use mathlib.Core.List.{Memᴰ}
use cc_tunnel.Common.{
  ◌≡◌, refl, sym, ap, ◌∙◌, ◌⊎◌, inl, inr, Bool, true, false, ◌&&◌, not, Option, none, some, List,
  [], ◌∷◌, Text, codes, arith, any, All, ◌==◌, ==_iff, is_empty, same_text, same_text-≡, Bool-cases,
  length,
}
use cc_tunnel.Remote.{Method, post}
use cc_tunnel.Server.Admin.{
  new_reconcile_vms_handler, admin_bearer_token, serve_http, serve_http-IsAllowed,
}
use cc_tunnel.Setup.{Environment, split_and_trim}
use cc_tunnel.Setup.Providers.{
  GceSettings, Provider, local_docker, cloud_run_sandbox, docker_gce, Attempt, no_database, no_key,
  bad_key_length, made, refused, Clients, new_provider_from_env,
}
use cc_tunnel.Setup.Start.{
  Flags, Setup, exits, serves, has_cleanup, decode_hex, route_of, with_key, with_provider, start,
  listen_addr, database_url,
}
use cc_tunnel.Setup.Emails.{join, IsEntry, allowed-entries}

mem-any : (email : Text) (es : List Text) → any (λ e. same_text e email) es ≡ true → Memᴰ email es
mem-any email [] h = cc
mem-any email (e ∷ es) h = elim (Bool-cases (same_text e email)) [
  | inl y ↦ Memᴰ.head (sym (same_text-≡ e email y))
  | inr n ↦ Memᴰ.tail (mem-any email es (ground (arith, n, h)))
]

serves-same : {a b : Bool} {x y : Setup} → serves a x ≡ serves b y → x ≡ y
serves-same h = cc

abbrev Route : Type 0
Route = Text × List Text

some-route : (p q : Route) → some p ≡ some q → (p.0 ≡ q.0) × (p.1 ≡ q.1)
some-route p q h = let same : p ≡ q = cc in (ap (λ r. r.0) same, ap (λ r. r.1) same)

not-is_empty : (t : Text) (x : Bool) → (not (is_empty t) && not x) ≡ true → is_empty t ≡ false
not-is_empty t x h = ground arith

-- A route is that of a GCE provider.
abbrev IsRoute : Environment → Flags → Clients → Setup → Type 0
IsRoute env flags clients s =
    (p : Provider) × (s.reconcile_route ≡ route_of env flags clients p)
    × (s.provider ≡ p)
    × (length s.encryption_key ≡ 32)

module _ (env : Environment) (flags : Flags) (clients : Clients) (b : Bool) (s : Setup) where
  with_key-Route :
      (p : Provider) (key : Option Text)
      → with_key env flags clients p key ≡ serves b s
      → IsRoute env flags clients s
  with_key-Route p none h = cc
  with_key-Route p (some key) h = elim (Bool-cases (length key == 32)) [
    | inr e ↦ different (rw e at h)
    | inl e ↦ served (rw e at h) ((==_iff (length key) 32).0 e)
  ]
    where
      setup : Setup
      setup = record {
        addr = listen_addr env flags clients;
        db_url = database_url env flags clients;
        provider = p;
        encryption_key = key;
        reconcile_route = route_of env flags clients p;
      }

      different : exits (has_cleanup p) bad_key_length ≡ serves b s → IsRoute env flags clients s
      different e = cc

      served :
          serves (has_cleanup p) setup ≡ serves b s → length key ≡ 32 → IsRoute env flags clients s
      served e l =
          let same : setup ≡ s = serves-same e in
          (
            p,
            ap (λ x. x.reconcile_route) (sym same),
            ap (λ x. x.provider) (sym same),
            ap (λ x. length x.encryption_key) (sym same) ∙ l,
          )

  with_provider-Route :
      (p : Attempt Provider)
      → with_provider env flags clients p ≡ serves b s
      → IsRoute env flags clients s
  with_provider-Route (refused r) h = cc
  with_provider-Route (made p) h =
      elim (Bool-cases (is_empty (env (codes "CC_LOGIN_ENCRYPTION_KEY")))) [
        | inl e ↦ different (rw e at h)
        | inr e ↦ with_key-Route p (decode_hex (env (codes "CC_LOGIN_ENCRYPTION_KEY"))) (rw e at h)
      ]
    where
      different : exits (has_cleanup p) no_key ≡ serves b s → IsRoute env flags clients s
      different e = cc

  start-Route : start env flags clients ≡ serves b s → IsRoute env flags clients s
  unfolding start
  start-Route h = elim (Bool-cases (clients.connects (database_url env flags clients))) [
    | inl e ↦
        with_provider-Route (new_provider_from_env env clients (env (codes "EXECUTION_PROVIDER")))
          (rw e at h)
    | inr e ↦ different (rw e at h)
  ]
    where
      different : exits false no_database ≡ serves b s → IsRoute env flags clients s
      different e = cc

  abbrev emails_variable : Text
  emails_variable = env (codes "RECONCILE_VMS_ALLOWED_EMAILS")

  route-allowed :
      (p : Provider) (audience : Text) (allowed : List Text)
      → route_of env flags clients p ≡ some (audience, allowed)
      → ((settings : GceSettings) × (p ≡ docker_gce settings))
        × (audience ≡ env (codes "RECONCILE_VMS_OIDC_AUDIENCE"))
        × (is_empty audience ≡ false)
        × (allowed ≡ new_reconcile_vms_handler (split_and_trim 44 emails_variable))
  unfolding route_of
  route-allowed (local_docker runner image network port) audience allowed h = cc
  route-allowed cloud_run_sandbox audience allowed h = cc
  route-allowed (docker_gce settings) audience allowed h =
      elim (Bool-cases (not (is_empty given) && not (is_empty emails))) [
        | inr e ↦ different (rw e at h)
        | inl e ↦
            let (same, list) =
              some-route (given, new_reconcile_vms_handler emails) (audience, allowed)
                (rw e at h) in
            (
              (settings, refl),
              sym same,
              ap is_empty (sym same) ∙ not-is_empty given (is_empty emails) e,
              sym list,
            )
      ]
    where
      given : Text
      given = env (codes "RECONCILE_VMS_OIDC_AUDIENCE")

      emails : List Text
      emails = split_and_trim 44 (env (codes "RECONCILE_VMS_ALLOWED_EMAILS"))

      different :
          ◌≡◌ {A = Option Route} none (some (audience, allowed))
          → ((settings' : GceSettings) × (docker_gce settings ≡ docker_gce settings'))
            × (audience ≡ env (codes "RECONCILE_VMS_OIDC_AUDIENCE"))
            × (is_empty audience ≡ false)
            × (allowed ≡ new_reconcile_vms_handler (split_and_trim 44 emails_variable))
      different e = cc

served-entry :
    {W : Type 0} (emails allowed entries : List Text)
    → allowed ≡ new_reconcile_vms_handler emails
    → new_reconcile_vms_handler emails ≡ entries
    → (validator : Text → Text → Option Text) (audience : Text) (reconcile : W → Bool × W)
      (method : Method) (authorization : Text) (w : W)
    → ((serve_http validator audience reconcile allowed method authorization w).1 ≡ w)
      ⊎ ((method ≡ post)
          × ((token : Text) × (email : Text) × (admin_bearer_token authorization ≡ some token)
              × (validator token audience ≡ some email)
              × Memᴰ email entries))
served-entry emails allowed entries same list validator audience reconcile method authorization w =
    rw same
      (elim (serve_http-IsAllowed validator audience reconcile emails method authorization w) [
        | inl (kept, status) ↦ inl kept
        | inr ((m, (token, email, bearer, valid, found, some_text)), result) ↦
            inr (m, (token, email, bearer, valid, mem-any email entries (rw list at found)))
      ])

-- A server that has started and registered the reconcile endpoint, from a list of non-empty emails
-- without commas and outer blanks, joined by commas, in RECONCILE_VMS_ALLOWED_EMAILS: its provider
-- is the GCE one, the audience is not empty, its encryption key has 32 bytes, and a request
-- reconciles nothing, or is a POST with a bearer token that is valid for that audience and for an
-- email of the list.
pub start-reconciles :
    {W : Type 0} (env : Environment) (flags : Flags) (clients : Clients) (b : Bool) (s : Setup)
    (audience : Text) (allowed entries : List Text)
    → start env flags clients ≡ serves b s
    → s.reconcile_route ≡ some (audience, allowed)
    → env (codes "RECONCILE_VMS_ALLOWED_EMAILS") ≡ join 44 entries
    → All (IsEntry 44) entries
    → (validator : Text → Text → Option Text) (reconcile : W → Bool × W) (method : Method)
      (authorization : Text) (w : W)
    → ((settings : GceSettings) × (s.provider ≡ docker_gce settings))
      × (is_empty audience ≡ false)
      × (length s.encryption_key ≡ 32)
      × (((serve_http validator audience reconcile allowed method authorization w).1 ≡ w)
          ⊎ ((method ≡ post)
              × ((token : Text) × (email : Text) × (admin_bearer_token authorization ≡ some token)
                  × (validator token audience ≡ some email)
                  × Memᴰ email entries)))
start-reconciles env flags clients b s audience allowed entries started route given each validator
      reconcile method authorization w =
    let (p, of, same, key) = start-Route env flags clients b s started in
    let ((settings, gce), named, full, list) =
      route-allowed env flags clients b s p audience allowed (sym of ∙ route) in
    (
      (settings, same ∙ gce),
      full,
      key,
      served-entry (split_and_trim 44 (env (codes "RECONCILE_VMS_ALLOWED_EMAILS"))) allowed entries
          list
          (ap (λ t. new_reconcile_vms_handler (split_and_trim 44 t)) given
            ∙ allowed-entries entries each)
          validator audience reconcile method authorization w,
    )
