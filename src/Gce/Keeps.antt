-- ===== src/Gce/Keeps.antt =====
-- What the provider's statements keep of the database, whatever is answered from outside.
use cc_tunnel.Common.{ℕ, ◌≡◌, refl, Bool, true, false, Action, Keeps, Bool-cases, inl, inr}
use cc_tunnel.Db.{Db}
use cc_tunnel.Db.Invariant.{
  Statement, create_vm, set_status, set_ip, increment, decrement, set_zero_agents, delete_vm,
  create_endpoint, set_endpoint_status, touch_endpoint, delete_endpoint,
}
use cc_tunnel.Gce.{Outside, World, query}

-- The writes on the way to an endpoint and of its use.
abbrev pub is_start : Statement → Bool
is_start (create_vm i now name zone ip) = true
is_start (set_status i s) = true
is_start (set_ip i ip) = true
is_start (increment i) = true
is_start (create_endpoint i now c vm_id name port) = true
is_start (touch_endpoint now c) = true
is_start _ = false

-- The writes of the search for a VM and of its start.
abbrev pub is_vm_write : Statement → Bool
is_vm_write (create_vm i now name zone ip) = true
is_vm_write (set_status i s) = true
is_vm_write (set_ip i ip) = true
is_vm_write _ = false

pub is_vm_write-is_start : (s : Statement) → is_vm_write s ≡ true → is_start s ≡ true
is_vm_write-is_start (create_vm i now name zone ip) h = refl
is_vm_write-is_start (set_status i s) h = refl
is_vm_write-is_start (set_ip i ip) h = refl
is_vm_write-is_start (increment i) h = cc
is_vm_write-is_start (decrement now i) h = cc
is_vm_write-is_start (set_zero_agents i t) h = cc
is_vm_write-is_start (delete_vm i) h = cc
is_vm_write-is_start (create_endpoint i now c vm_id name port) h = cc
is_vm_write-is_start (set_endpoint_status i s) h = cc
is_vm_write-is_start (touch_endpoint now c) h = cc
is_vm_write-is_start (delete_endpoint i) h = cc

module _ (o : Outside) (I : Db → Type 0) where
  -- A property of the database, as one of the provider's state.
  abbrev pub OfDb : World → Type 0
  OfDb w = I w.db

  abbrev pub Kept : {A : Type 0} → Action World A → Type 0
  Kept m = Keeps OfDb m

  pub Kept-query :
      {A : Type 0} (q : ℕ → ℕ → Action Db A)
      → ((now id : ℕ) → Keeps I (q now id))
      → Kept (query o q)
  Kept-query q h w i = elim (Bool-cases (o.db_answers w.calls)) [
    | inl e ↦ rw e (h _ _ w.db i)
    | inr e ↦ rw e i
  ]
