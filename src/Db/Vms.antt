-- ===== src/Db/Vms.antt =====
-- repository.go, vm_instances. A query answers from the table; an UPDATE or DELETE that matches no
-- row succeeds, as in SQL. Losing the connection is modelled where these are called.
use cc_tunnel.Common.{
  same_text, ℕ, ◌+◌, ◌-◌, Bool, true, false, ◌&&◌, Option, none, some, List, [], ◌∷◌, ◌++◌, Text,
  ltb, leb, ◌==◌, if◌then◌else◌, select, update_where, find_first, sort_by, any, not, Result, ok,
  err, no_rows, constraint, Action,
}
use cc_tunnel.Db.{VmStatus, VmInstance, Db}

abbrev pub has_id : ℕ → VmInstance → Bool
has_id i vm = vm.id == i

abbrev pub is_running : VmStatus → Bool
is_running VmStatus.running = true
is_running _ = false

-- CHECK (status IN ('provisioning', 'running', 'terminated')).
abbrev pub status_allowed : VmStatus → Bool
status_allowed VmStatus.unhealthy = false
status_allowed _ = true

abbrev or_no_rows {ℓ} : {A : Type ℓ} → Option A → Result A
or_no_rows none = err no_rows
or_no_rows (some a) = ok a

abbrev change : ℕ → (VmInstance → VmInstance) → Db → Db
change i f d = record d { vms = update_where (has_id i) f d.vms }

-- `new_id` is gen_random_uuid(); the name is UNIQUE, and the id is the primary key.
unfoldable pub create_vm_instance : ℕ → ℕ → Text → Text → Text → Action Db VmInstance
create_vm_instance new_id now name zone ip d =
    if any (λ vm. same_text vm.gce_instance_name name) d.vms
    then (err constraint, d)
    else if any (has_id new_id) d.vms
    then (err constraint, d)
    else (ok vm, record d { vms = d.vms ++ vm ∷ [] })
  where
    vm : VmInstance
    vm = record {
      id = new_id;
      gce_instance_name = name;
      zone = zone;
      internal_ip = ip;
      status = VmStatus.provisioning;
      active_containers = 0;
      idle_since = none;
      zero_agents_since = none;
      created_at = now;
    }

unfoldable pub get_vm_instance : ℕ → Action Db VmInstance
get_vm_instance i d = (or_no_rows (find_first (has_id i) d.vms), d)

abbrev has_name : Text → VmInstance → Bool
has_name name vm = same_text vm.gce_instance_name name

unfoldable pub get_vm_instance_by_name : Text → Action Db VmInstance
get_vm_instance_by_name name d = (or_no_rows (find_first (has_name name) d.vms), d)

-- ORDER BY created_at ASC
unfoldable pub list_vm_instances : Action Db (List VmInstance)
unfolding sort_by
list_vm_instances d = (ok (sort_by (λ vm. vm.created_at) d.vms), d)

-- The CHECK is tried on each updated row.
unfoldable pub update_vm_instance_status : ℕ → VmStatus → Action Db (Unit {0})
update_vm_instance_status i s d =
    if any (has_id i) d.vms && not (status_allowed s)
    then (err constraint, d)
    else (ok tt, change i (λ vm. record vm { status = s }) d)

unfoldable pub update_vm_instance_ip : ℕ → Text → Action Db (Unit {0})
update_vm_instance_ip i ip d = (ok tt, change i (λ vm. record vm { internal_ip = ip }) d)

unfoldable pub increment_vm_active_containers : ℕ → Action Db (Unit {0})
increment_vm_active_containers i d = (
  ok tt,
  change i (λ vm. record vm { active_containers = vm.active_containers + 1; idle_since = none }) d,
)

-- GREATEST(active_containers - 1, 0); the row becomes idle when nothing is left.
unfoldable pub decrement_vm_active_containers : ℕ → ℕ → Action Db (Unit {0})
decrement_vm_active_containers now i d = (
  ok tt,
  change i
      (λ vm. record vm {
        active_containers = vm.active_containers - 1;
        idle_since = if leb vm.active_containers 1 then some now else vm.idle_since;
      })
      d,
)

-- ORDER BY active_containers DESC LIMIT 1; of rows that tie, the first.
abbrev pub fuller : Option VmInstance → VmInstance → Option VmInstance
fuller none vm = some vm
fuller (some best) vm =
    if ltb best.active_containers vm.active_containers then some vm else some best

abbrev pub fullest : Option VmInstance → List VmInstance → Option VmInstance
fullest best [] = best
fullest best (vm ∷ vms) = fullest (fuller best vm) vms

abbrev pub is_available : ℕ → VmInstance → Bool
is_available max_containers vm = is_running vm.status && ltb vm.active_containers max_containers

unfoldable pub get_available_vm_instance : ℕ → Action Db VmInstance
get_available_vm_instance max_containers d =
    (or_no_rows (fullest none (select (is_available max_containers) d.vms)), d)

abbrev pub older_than : ℕ → ℕ → Option ℕ → Bool
older_than now threshold none = false
older_than now threshold (some t) = ltb (t + threshold) now

abbrev pub is_idle_vm : ℕ → ℕ → VmInstance → Bool
is_idle_vm now threshold vm =
    is_running vm.status && vm.active_containers == 0 && older_than now threshold vm.idle_since

-- The rows come back in the order of the table, not by the time that ORDER BY names.
unfoldable pub list_idle_vm_instances : ℕ → ℕ → Action Db (List VmInstance)
list_idle_vm_instances now threshold d = (ok (select (is_idle_vm now threshold) d.vms), d)

-- ORDER BY created_at ASC
unfoldable pub list_running_vm_instances : Action Db (List VmInstance)
unfolding sort_by
list_running_vm_instances d =
    (ok (sort_by (λ vm. vm.created_at) (select (λ vm. is_running vm.status) d.vms)), d)

unfoldable pub set_vm_zero_agents_since : ℕ → Option ℕ → Action Db (Unit {0})
set_vm_zero_agents_since i t d = (ok tt, change i (λ vm. record vm { zero_agents_since = t }) d)

-- The foreign key of session_endpoints refuses to leave an endpoint without its VM.
unfoldable pub delete_vm_instance : ℕ → Action Db (Unit {0})
delete_vm_instance i d =
    if any (has_id i) d.vms && any (λ ep. ep.vm_instance_id == i) d.endpoints
    then (err constraint, d)
    else (ok tt, record d { vms = select (λ vm. not (has_id i vm)) d.vms })
