-- ===== src/Db.antt =====
-- apps/cc-tunnel/internal/db: the rows of the VM and session-endpoint tables (repository.go, with
-- the constraints of migrations/). A UUID is a number, since the code only compares it; the time
-- of a statement, which PostgreSQL's NOW() reads, is an argument.
pub mod Vms
pub mod Endpoints
pub mod Constraints
pub mod Invariant
pub mod Ports
pub mod Counts
use cc_tunnel.Common.{ℕ, Option, List, Text}

-- vm_instances.status; `unhealthy` is written by the provider and is outside the CHECK constraint.
pub data VmStatus : Type 0 where
  provisioning running terminated unhealthy : VmStatus

pub record VmInstance : Type 0 where
  pub id : ℕ
  pub gce_instance_name : Text
  pub zone : Text
  pub internal_ip : Text
  pub status : VmStatus
  pub active_containers : ℕ
  pub idle_since : Option ℕ
  pub zero_agents_since : Option ℕ
  pub created_at : ℕ

pub data EndpointStatus : Type 0 where
  provisioning running terminated : EndpointStatus

pub record SessionEndpoint : Type 0 where
  pub id : ℕ
  pub conversation_id : ℕ
  pub vm_instance_id : ℕ
  pub container_name : Text
  pub port : ℕ
  pub status : EndpointStatus
  pub last_activity : ℕ
  pub created_at : ℕ

-- The two tables, in the order of insertion.
pub record Db : Type 0 where
  pub vms : List VmInstance
  pub endpoints : List SessionEndpoint
