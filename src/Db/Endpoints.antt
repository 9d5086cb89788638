-- ===== src/Db/Endpoints.antt =====
-- repository.go, session_endpoints, and the search for a free port.
use cc_tunnel.Common.{
  ℕ, zero, suc, ◌+◌, ◌-◌, Bool, true, false, ◌&&◌, ◌||◌, not, Option, none, some, List, [], ◌∷◌,
  ◌++◌, Text, ltb, ◌==◌, if◌then◌else◌, select, update_where, find_first, any, Result, ok, err,
  no_rows, constraint, Action,
}
use cc_tunnel.Db.{EndpointStatus, SessionEndpoint, VmInstance, Db}

abbrev pub is_running : EndpointStatus → Bool
is_running EndpointStatus.running = true
is_running _ = false

abbrev pub of_conversation : ℕ → SessionEndpoint → Bool
of_conversation c ep = ep.conversation_id == c

abbrev or_no_rows {ℓ} : {A : Type ℓ} → Option A → Result A
or_no_rows none = err no_rows
or_no_rows (some a) = ok a

-- UNIQUE (conversation_id), UNIQUE (vm_instance_id, port) and the primary key.
abbrev pub conflicts : ℕ → ℕ → ℕ → ℕ → SessionEndpoint → Bool
conflicts new_id conversation_id vm_id port ep =
    ep.id == new_id
    || ep.conversation_id == conversation_id
    || (ep.vm_instance_id == vm_id && ep.port == port)

-- The foreign key to conversations is left out: the caller holds a conversation's id.
unfoldable pub create_session_endpoint : ℕ → ℕ → ℕ → ℕ → Text → ℕ → Action Db SessionEndpoint
create_session_endpoint new_id now conversation_id vm_id container_name port d =
    if any (conflicts new_id conversation_id vm_id port) d.endpoints
    then (err constraint, d)
    else if any (λ (vm : VmInstance). vm.id == vm_id) d.vms
    then (ok ep, record d { endpoints = d.endpoints ++ ep ∷ [] })
    else (err constraint, d)
  where
    ep : SessionEndpoint
    ep = record {
      id = new_id;
      conversation_id = conversation_id;
      vm_instance_id = vm_id;
      container_name = container_name;
      port = port;
      status = EndpointStatus.running;
      last_activity = now;
      created_at = now;
    }

unfoldable pub get_session_endpoint_by_conversation_id : ℕ → Action Db SessionEndpoint
get_session_endpoint_by_conversation_id c d =
    (or_no_rows (find_first (of_conversation c) d.endpoints), d)

unfoldable pub update_session_endpoint_status : ℕ → EndpointStatus → Action Db (Unit {0})
update_session_endpoint_status i s d = (
  ok tt,
  record d {
    endpoints = update_where (λ ep. ep.id == i) (λ ep. record ep { status = s }) d.endpoints;
  },
)

unfoldable pub update_session_endpoint_last_activity : ℕ → ℕ → Action Db (Unit {0})
update_session_endpoint_last_activity now c d = (
  ok tt,
  record d {
    endpoints =
        update_where (of_conversation c) (λ ep. record ep { last_activity = now }) d.endpoints;
  },
)

abbrev pub is_idle_endpoint : ℕ → ℕ → SessionEndpoint → Bool
is_idle_endpoint now threshold ep = is_running ep.status && ltb (ep.last_activity + threshold) now

-- In the order of the table, not by last_activity, which ORDER BY names.
unfoldable pub list_idle_session_endpoints : ℕ → ℕ → Action Db (List SessionEndpoint)
list_idle_session_endpoints now threshold d =
    (ok (select (is_idle_endpoint now threshold) d.endpoints), d)

unfoldable pub delete_session_endpoint : ℕ → Action Db (Unit {0})
delete_session_endpoint i d =
    (ok tt, record d { endpoints = select (λ ep. not (ep.id == i)) d.endpoints })

-- A port that the subquery of the search finds in use on the VM.
abbrev pub holds_port : ℕ → ℕ → SessionEndpoint → Bool
holds_port vm_id p ep = ep.vm_instance_id == vm_id && is_running ep.status && ep.port == p

-- generate_series(p, p + count - 1), its first free port, 0 for no row.
unfoldable pub first_free : List SessionEndpoint → ℕ → ℕ → ℕ → ℕ
first_free eps vm_id p zero = 0
first_free eps vm_id p (suc count) =
    let rest = first_free eps vm_id (p + 1) count in
    if any (holds_port vm_id p) eps then rest else p

-- The series from `start` to `end` is empty when `end` is below `start`.
unfoldable pub get_smallest_available_port_on_vm : ℕ → ℕ → ℕ → Action Db ℕ
unfolding first_free
get_smallest_available_port_on_vm vm_id start end d =
    (ok (first_free d.endpoints vm_id start (end + 1 - start)), d)
