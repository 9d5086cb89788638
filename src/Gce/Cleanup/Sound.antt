-- ===== src/Gce/Cleanup/Sound.antt =====
-- Which endpoints CleanupOrphans removes.
use mathlib.Core.List.{Memᴰ}
use mathlib.Core.Bool.{true≢false}
use cc_tunnel.Common.{
  Result, Memᴰ-select, resume, ℕ, ◌+◌, ◌≡◌, refl, sym, ap, ◌∙◌, ◌⊎◌, inl, inr, true, false, ◌==◌,
  List, [], ◌∷◌, any, select, Bool-cases, ok, err,
}
use cc_tunnel.Db.{SessionEndpoint}
use cc_tunnel.Db.Endpoints.{is_idle_endpoint, list_idle_session_endpoints}
use cc_tunnel.Gce.{Config, Outside, World}
use cc_tunnel.Gce.Cleanup.{
  clean_endpoint, clean_endpoints, clean_idle_endpoints, clean_idle_vms, cleanup_orphans,
}
use cc_tunnel.Gce.Cleanup.Rows.{has_endpoint, clean_endpoint-gone, endpoints-clean_idle_vms}

module _ (o : Outside) (cfg : Config) where
  endpoints-cons :
      (ep : SessionEndpoint) (eps : List SessionEndpoint) (w : World)
      → ((clean_endpoints o cfg (ep ∷ eps) w).1 ≡ (clean_endpoint o cfg ep w).1)
        ⊎ ((clean_endpoints o cfg (ep ∷ eps) w).1
            ≡ (clean_endpoints o cfg eps (clean_endpoint o cfg ep w).1).1)
  unfolding clean_endpoints
  endpoints-cons ep eps w = go (clean_endpoint o cfg ep w)
    where
      go :
          (p : Result (Unit {0}) × World)
          → ((resume (λ _. clean_endpoints o cfg eps) p).1 ≡ p.1)
            ⊎ ((resume (λ _. clean_endpoints o cfg eps) p).1 ≡ (clean_endpoints o cfg eps p.1).1)
      go (ok a, v) = inr refl
      go (err x, v) = inl refl

  clean_endpoints-gone :
      (eps : List SessionEndpoint) (i : ℕ) (w : World)
      → has_endpoint i w ≡ true
      → has_endpoint i (clean_endpoints o cfg eps w).1 ≡ false
      → (ep : SessionEndpoint) × Memᴰ ep eps × (ep.id ≡ i)
  clean_endpoints-gone [] i w here gone =
      absurd (unfold clean_endpoints in true≢false (sym here ∙ gone))
  clean_endpoints-gone (ep ∷ eps) i w here gone = elim (endpoints-cons ep eps w) [
    | inl e ↦ (ep, Memᴰ.head refl, clean_endpoint-gone o cfg ep i w here (rw e at gone))
    | inr e ↦ elim (Bool-cases (has_endpoint i (clean_endpoint o cfg ep w).1)) [
      | inr lost ↦ (ep, Memᴰ.head refl, clean_endpoint-gone o cfg ep i w here lost)
      | inl still ↦
          let (x, m, same) =
            clean_endpoints-gone eps i (clean_endpoint o cfg ep w).1 still (rw e at gone) in
          (x, Memᴰ.tail m, same)
    ]
  ]

  endpoints-cleanup_orphans :
      (w : World)
      → (cleanup_orphans o cfg w).1.db.endpoints ≡ (clean_idle_endpoints o cfg w).1.db.endpoints
  unfolding cleanup_orphans
  endpoints-cleanup_orphans w = go (clean_idle_endpoints o cfg w)
    where
      go :
          (p : Result (Unit {0}) × World)
          → (resume (λ _. clean_idle_vms o cfg) p).1.db.endpoints ≡ p.1.db.endpoints
      go (ok a, v) = endpoints-clean_idle_vms o cfg v
      go (err x, v) = refl

  -- An endpoint's id that CleanupOrphans takes out of the table belongs to a row of the table at
  -- its start that was running and had been idle for longer than the timeout, at the time of the
  -- first statement; this holds when any of its calls fail, too.
  pub cleanup_orphans-Idle :
      (i : ℕ) (w : World)
      → has_endpoint i w ≡ true
      → has_endpoint i (cleanup_orphans o cfg w).1 ≡ false
      → (ep : SessionEndpoint) × Memᴰ ep w.db.endpoints
        × (ep.id ≡ i)
        × (is_idle_endpoint (o.now w.calls) cfg.idle_timeout ep ≡ true)
  unfolding clean_idle_endpoints list_idle_session_endpoints
  cleanup_orphans-Idle i w here gone = elim (Bool-cases (o.db_answers w.calls)) [
    | inr e ↦ absurd (true≢false (sym here ∙ (rw e at lost)))
    | inl e ↦
        let (ep, m, same) =
          clean_endpoints-gone
            (select (is_idle_endpoint (o.now w.calls) cfg.idle_timeout) w.db.endpoints) i
            (record w { calls = w.calls + 1 }) here (rw e at lost) in
        let (n, idle) =
          Memᴰ-select (is_idle_endpoint (o.now w.calls) cfg.idle_timeout) w.db.endpoints m in
        (ep, n, same, idle)
  ]
    where
      lost : has_endpoint i (clean_idle_endpoints o cfg w).1 ≡ false
      lost =
          ap (any (λ (ep : SessionEndpoint). ep.id == i)) (sym (endpoints-cleanup_orphans w)) ∙ gone
