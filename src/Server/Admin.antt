-- ===== src/Server/Admin.antt =====
-- apps/cc-tunnel/internal/admin/reconcile_vms.go. Texts are runes here. `validator` is the check of
-- a token for an audience, with the payload's email, empty if it has none.
use cc_tunnel.Common.{
  ℕ, ◌≡◌, refl, ◌⊎◌, inl, inr, Bool, true, false, Option, none, some, List, [], ◌∷◌, Text, codes,
  if◌then◌else◌, is_empty, same_text, map, select, not, any, Bool-cases, Option-cases, sym,
}
use mathlib.Core.Bool.{true≢false}
use cc_tunnel.Turn.Title.{trim_space}
use cc_tunnel.Remote.{Method, get, post, other, is_post}
use cc_tunnel.Server.{cut_prefix}

-- The set of allowed emails.
unfoldable pub new_reconcile_vms_handler : List Text → List Text
unfolding trim_space
new_reconcile_vms_handler emails = select (λ e. not (is_empty e)) (map trim_space emails)

abbrev unless_empty : Text → Option Text
unless_empty [] = none
unless_empty (c ∷ s) = some (c ∷ s)

abbrev trimmed_token : Option Text → Option Text
trimmed_token none = none
trimmed_token (some t) = unless_empty (trim_space t)

unfoldable pub admin_bearer_token : Text → Option Text
unfolding trim_space
admin_bearer_token h = trimmed_token (cut_prefix (codes "Bearer ") h)

-- `reconcile` is ReconcileVMs, with whether it gives no error; the result is the status.
module _ {W : Type 0} (validator : Text → Text → Option Text) (audience : Text)
    (reconcile : W → Bool × W) where
  abbrev pub reconciled : Bool × W → ℕ × W
  reconciled (true, w) = (204, w)
  reconciled (false, w) = (500, w)

  abbrev serve_email : List Text → Option Text → W → ℕ × W
  serve_email allowed none w = (401, w)
  serve_email allowed (some email) w =
      let run = reconciled (reconcile w) in
      if any (λ e. same_text e email) allowed then run else (403, w)

  abbrev serve_token : List Text → Option Text → W → ℕ × W
  serve_token allowed none w = (401, w)
  serve_token allowed (some token) w = serve_email allowed (validator token audience) w

  unfoldable pub serve_http : List Text → Method → Text → W → ℕ × W
  unfolding admin_bearer_token
  serve_http allowed method authorization w =
      if is_post method then serve_token allowed (admin_bearer_token authorization) w else (405, w)

  -- The request may reconcile.
  abbrev pub IsAllowed : List Text → Method → Text → Type 0
  IsAllowed emails method authorization =
      (method ≡ post)
      × ((token : Text) × (email : Text) × (admin_bearer_token authorization ≡ some token)
          × (validator token audience ≡ some email)
          × (any (λ e. same_text e email) (new_reconcile_vms_handler emails) ≡ true)
          × (is_empty email ≡ false))

  -- A text among the non-empty ones is not empty.
  any-select_some :
      (email : Text) (es : List Text)
      → any (λ e. same_text e email) (select (λ e. not (is_empty e)) es) ≡ true
      → is_empty email ≡ false
  any-select_some (c ∷ s) es h = refl
  any-select_some [] [] h = absurd (true≢false (sym h))
  any-select_some [] ([] ∷ es) h = any-select_some [] es h
  any-select_some [] ((c ∷ s) ∷ es) h = any-select_some [] es h

  allowed-some :
      (emails : List Text) (email : Text)
      → any (λ e. same_text e email) (new_reconcile_vms_handler emails) ≡ true
      → is_empty email ≡ false
  unfolding new_reconcile_vms_handler
  allowed-some emails email h = any-select_some email (map trim_space emails) h

  -- Either nothing is reconciled and the status is 401, 403 or 405; or the request is a POST whose
  -- bearer token is valid for the audience and for an email that is not empty and, less its blanks,
  -- one of the configured ones, and the result is that of ReconcileVMs, with the status 204 or 500.
  pub serve_http-IsAllowed :
      (emails : List Text) (method : Method) (authorization : Text) (w : W)
      → (((serve_http (new_reconcile_vms_handler emails) method authorization w).1 ≡ w)
          × (((serve_http (new_reconcile_vms_handler emails) method authorization w).0 ≡ 401)
              ⊎ ((serve_http (new_reconcile_vms_handler emails) method authorization w).0 ≡ 403)
              ⊎ ((serve_http (new_reconcile_vms_handler emails) method authorization w).0 ≡ 405)))
        ⊎ (IsAllowed emails method authorization
            × (serve_http (new_reconcile_vms_handler emails) method authorization w
                ≡ reconciled (reconcile w)))
  unfolding serve_http
  serve_http-IsAllowed emails get authorization w = inl (refl, inr (inr refl))
  serve_http-IsAllowed emails other authorization w = inl (refl, inr (inr refl))
  serve_http-IsAllowed emails post authorization w =
      elim (Option-cases (admin_bearer_token authorization)) [
        | inl e ↦ rw e (inl (refl, inl refl))
        | inr (token, e) ↦ elim (Option-cases (validator token audience)) [
          | inl k ↦ rw (e, k) (inl (refl, inl refl))
          | inr (email, k) ↦
              elim (Bool-cases (any (λ x. same_text x email) (new_reconcile_vms_handler emails))) [
                | inr n ↦ rw (e, k, n) (inl (refl, inr (inl refl)))
                | inl y ↦ inr (
                  (refl, (token, email, e, k, y, allowed-some emails email y)),
                  rw (e, k, y) refl,
                )
              ]
        ]
      ]
