-- ===== src/Examples/Database.antt =====
-- Statements of the repository on small tables.
use cc_tunnel.Common.{ℕ, ◌+◌, ◌-◌, ◌≡◌, ok, arith}
use cc_tunnel.Db.Endpoints.{get_smallest_available_port_on_vm}
use cc_tunnel.Db.Ports.{Finds, get_smallest_available_port_on_vm-Finds}
use cc_tunnel.Examples.Data.{with_endpoint}

Finds_example :
    (r : ℕ) × (get_smallest_available_port_on_vm 7 61000 61002 with_endpoint
      ≡ (ok r, with_endpoint))
    × Finds with_endpoint.endpoints 7 61000 (61002 + 1 - 61000) r
Finds_example = get_smallest_available_port_on_vm-Finds 7 61000 61002 with_endpoint (omega arith)
