-- ===== src/Agents/Runner.antt =====
-- apps/cc-tunnel/internal/docker/cmrunner.go: a container-manager in the place of the docker daemon.
use cc_tunnel.Common.{ℤ, pos, Bool, true, false, Option, none, some, List, [], Text, codes}
use cc_tunnel.Agents.Client.{ClientRequest}

-- ContainerCreateOpts, as far as the runner reads it.
pub record ContainerCreateOpts : Type 0 where
  pub image : Text
  pub name : Text
  pub network : Text
  pub env : List Text

pub record ContainerInfo : Type 0 where
  pub id : Text
  pub name : Text
  pub state : Text

-- The container-manager over some state; the result says whether there is no error.
pub record ContainerManager (S : Type 0) : Type 0 where
  pub run_agent : ClientRequest → S → Bool × S
  pub stop_container : Text → S → Bool × S
  pub remove_container : Text → S → Bool × S

module _ {S : Type 0} (cm : ContainerManager S) (container_port : ℤ) where
  abbrev named : Text → Bool × S → Option Text × S
  named name (true, s) = (some name, s)
  named name (false, s) = (none, s)

  -- The id of the container is its name.
  unfoldable pub runner_create : ContainerCreateOpts → S → Option Text × S
  runner_create opts s = named opts.name (
      cm.run_agent
        (record {
          image = opts.image;
          name = opts.name;
          host_port = pos 0;
          container_port = container_port;
          network = opts.network;
          env = opts.env;
          labels = [];
        })
        s)

  unfoldable pub runner_start : Text → S → Bool × S
  runner_start id s = (true, s)

  unfoldable pub runner_stop : Text → S → Bool × S
  runner_stop id s = cm.stop_container id s

  unfoldable pub runner_remove : Text → S → Bool × S
  runner_remove id s = cm.remove_container id s

  -- A container is always said to run.
  unfoldable pub runner_inspect : Text → ContainerInfo
  runner_inspect id = record { id = id; name = id; state = codes "running" }

  unfoldable pub runner_list : List ContainerInfo
  runner_list = []
