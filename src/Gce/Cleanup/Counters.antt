-- ===== src/Gce/Cleanup/Counters.antt =====
-- CleanupOrphans keeps the VMs' counters right, while the database answers.
use mathlib.Core.List.{Memᴰ}
use mathlib.Core.List.Memᴰ.{cases_cons, not-nil}
use mathlib.Core.Bool.{true≢false}
use cc_tunnel.Common.{
  ℕ, ◌+◌, ◌==◌, ◌≡◌, refl, sym, ap, ◌∙◌, Bool, true, false, not, List, [], ◌∷◌, any, any-select,
  select, arith, Bool-cases, inl, inr, Result, ok, err, Action, ◌>>=◌, Keeps-bind,
}
use cc_tunnel.Db.{Db, SessionEndpoint}
use cc_tunnel.Db.Vms.{decrement_vm_active_containers}
use cc_tunnel.Db.Endpoints.{is_idle_endpoint, list_idle_session_endpoints, delete_session_endpoint}
use cc_tunnel.Db.Constraints.{Apart}
use cc_tunnel.Db.Invariant.{exec, decrement, delete_endpoint}
use cc_tunnel.Db.Counts.{Counted, nothing_owed, endpoints_on-some, any-conflicts-id}
use cc_tunnel.Db.Counts.Writes.{exec-Counted, decrement-Counted, delete-Counted}
use cc_tunnel.Gce.{Config, Outside, World, query}
use cc_tunnel.Gce.Cleanup.{
  stop_agent, clean_endpoint, clean_endpoints, clean_idle_endpoints, clean_idle_vms,
  cleanup_orphans,
}
use cc_tunnel.Gce.Keeps.{OfDb, Kept}
use cc_tunnel.Gce.Cleanup.Kept.{Kept-stop_agent, Kept-clean_idle_vms}

-- Rows of the table `rows` with different ids.
abbrev Listed : List SessionEndpoint → List SessionEndpoint → Type 0
Listed rows [] = Unit
Listed rows (ep ∷ eps) = Memᴰ ep rows × (any (λ x. x.id == ep.id) eps ≡ false) × Listed rows eps

Memᴰ-kept :
    (q : SessionEndpoint → Bool) (xs : List SessionEndpoint) (a : SessionEndpoint)
    → Memᴰ a xs
    → q a ≡ true
    → Memᴰ a (select q xs)
Memᴰ-kept q [] a m h = absurd (not-nil m)
Memᴰ-kept q (x ∷ xs) a m h = elim (Bool-cases (q x)) [
  | inl e ↦ rw e (elim (cases_cons m) [
    | inl here ↦ Memᴰ.head here
    | inr there ↦ Memᴰ.tail (Memᴰ-kept q xs a there h)
  ])
  | inr e ↦ rw e (elim (cases_cons m) [
    | inl here ↦ absurd (true≢false (sym h ∙ ap q here ∙ e))
    | inr there ↦ Memᴰ-kept q xs a there h
  ])
]

-- The other rows are still there after one is deleted.
Listed-delete :
    (k : ℕ) (rows eps : List SessionEndpoint)
    → any (λ x. x.id == k) eps ≡ false
    → Listed rows eps
    → Listed (select (λ x. not (x.id == k)) rows) eps
Listed-delete k rows [] h l = tt
Listed-delete k rows (ep ∷ eps) h l = (
  Memᴰ-kept (λ x. not (x.id == k)) rows ep l.0 (ground arith),
  l.1,
  Listed-delete k rows eps (ground arith) l.2,
)

Listed-select :
    (p : SessionEndpoint → Bool) (rows xs : List SessionEndpoint)
    → Apart xs
    → ((a : SessionEndpoint) → Memᴰ a xs → Memᴰ a rows)
    → Listed rows (select p xs)
Listed-select p rows [] a sub = tt
Listed-select p rows (x ∷ xs) a sub = elim (Bool-cases (p x)) [
  | inl e ↦ rw e (
    sub x (Memᴰ.head refl),
    any-select (λ y. y.id == x.id) p xs (any-conflicts-id x xs a.0),
    Listed-select p rows xs a.1 (λ b m. sub b (Memᴰ.tail m)),
  )
  | inr e ↦ rw e (Listed-select p rows xs a.1 (λ b m. sub b (Memᴰ.tail m)))
]

module _ (o : Outside) (cfg : Config) (answers : (n : ℕ) → o.db_answers n ≡ true) where
  abbrev AllCounted : Db → Type 0
  AllCounted d = Counted cfg.max_containers nothing_owed d

  query-db :
      {A : Type 0} (q : ℕ → ℕ → Action Db A) (w : World)
      → (query o q w).1.db ≡ (q (o.now w.calls) (o.new_id w.calls) w.db).1
  query-db q w = rw (answers w.calls) refl

  -- The container is stopped first, which the database does not see.
  clean_endpoint-db :
      (ep : SessionEndpoint) (w : World)
      → (now : ℕ) × ((clean_endpoint o cfg ep w).1.db
          ≡ exec (delete_endpoint ep.id) (exec (decrement now ep.vm_instance_id) w.db))
  unfolding clean_endpoint exec
  clean_endpoint-db ep w = (
    o.now v.calls,
    query-db (λ now id. delete_session_endpoint ep.id) u
        ∙ ap (λ d. (delete_session_endpoint ep.id d).1)
            (query-db (λ now id. decrement_vm_active_containers now ep.vm_instance_id) v
              ∙ ap (λ d. (decrement_vm_active_containers (o.now v.calls) ep.vm_instance_id d).1)
                  (Kept-stop_agent o cfg (λ d. d ≡ w.db) ep w refl)),
  )
    where
      v : World
      v = (stop_agent o cfg ep w).1

      u : World
      u = (query o (λ now id. decrement_vm_active_containers now ep.vm_instance_id) v).1

  clean_endpoint-Counted :
      (ep : SessionEndpoint) (w : World)
      → Memᴰ ep w.db.endpoints
      → AllCounted w.db
      → AllCounted (clean_endpoint o cfg ep w).1.db
  unfolding exec decrement_vm_active_containers
  clean_endpoint-Counted ep w m c =
      let (now, e) = clean_endpoint-db ep w in
      rw e (
        delete-Counted cfg.max_containers ep (exec (decrement now ep.vm_instance_id) w.db) m (
          decrement-Counted cfg.max_containers now ep.vm_instance_id w.db
            (endpoints_on-some ep.vm_instance_id w.db.endpoints ep m refl) c))

  clean_endpoint-endpoints :
      (ep : SessionEndpoint) (w : World)
      → (clean_endpoint o cfg ep w).1.db.endpoints
        ≡ select (λ x. not (x.id == ep.id)) w.db.endpoints
  unfolding exec decrement_vm_active_containers delete_session_endpoint
  clean_endpoint-endpoints ep w = let (now, e) = clean_endpoint-db ep w in rw e refl

  go_on :
      (eps : List SessionEndpoint) (p : Result (Unit {0}) × World) (w : World)
      → ((v : World)
          → Listed v.db.endpoints eps
          → AllCounted v.db
          → AllCounted (clean_endpoints o cfg eps v).1.db)
      → AllCounted p.1.db
      → Listed p.1.db.endpoints eps
      → AllCounted (((λ _. p) >>= (λ _. clean_endpoints o cfg eps)) w).1.db
  go_on eps (ok a, v) w rest d k = rest v k d
  go_on eps (err e, v) w rest d k = d

  clean_endpoints-Counted :
      (eps : List SessionEndpoint) (w : World)
      → Listed w.db.endpoints eps
      → AllCounted w.db
      → AllCounted (clean_endpoints o cfg eps w).1.db
  unfolding clean_endpoints
  clean_endpoints-Counted [] w l c = c
  clean_endpoints-Counted (ep ∷ eps) w l c =
      go_on eps (clean_endpoint o cfg ep w) w (clean_endpoints-Counted eps)
        (clean_endpoint-Counted ep w l.0 c)
        (rw (clean_endpoint-endpoints ep w) (Listed-delete ep.id w.db.endpoints eps l.1 l.2))

  pub clean_idle_endpoints-Counted : Kept o AllCounted (clean_idle_endpoints o cfg)
  unfolding clean_idle_endpoints list_idle_session_endpoints
  clean_idle_endpoints-Counted w c = rw (answers w.calls) (
      clean_endpoints-Counted
        (select (is_idle_endpoint (o.now w.calls) cfg.idle_timeout) w.db.endpoints)
        (record w { calls = w.calls + 1 })
        (Listed-select (is_idle_endpoint (o.now w.calls) cfg.idle_timeout) w.db.endpoints
          w.db.endpoints c.valid.apart (λ a m. m))
        c)

  pub cleanup_orphans-Counted : Kept o AllCounted (cleanup_orphans o cfg)
  unfolding cleanup_orphans
  cleanup_orphans-Counted =
      Keeps-bind (OfDb o AllCounted) (clean_idle_endpoints o cfg) (λ _. clean_idle_vms o cfg)
        clean_idle_endpoints-Counted
        (λ _. Kept-clean_idle_vms o cfg AllCounted (exec-Counted cfg.max_containers))
