-- ===== src/Examples/Local.antt =====
-- A session on the local docker daemon whose container has died.
use cc_tunnel.Common.{◌≡◌, ◌≢◌, refl, arith, true, false, some, none, [], ◌∷◌, Text, codes, any}
use cc_tunnel.Sessions.{
  Session, stop_container, remove, Config, Docker, Manager, lookup, is_timer, client_url,
  create_session, reuse, get_or_create, stop, fire, poll, wait_for_ready, register,
}
use cc_tunnel.Sessions.Laws.{Gives, get_or_create-Gives}
use cc_tunnel.Sessions.Timers.{Stopped, stop-Stopped}
use cc_tunnel.Sessions.Stale.{get_or_create-stale_timer}

abbrev docker : Docker
docker = record {
  is_alive = λ k i. false;
  created = λ k. some (codes "c2");
  accepts = λ k. true;
  is_ready = λ k url. true;
  takes_credentials = λ k url. true;
  polls = λ k. 2;
  now = λ k. k;
  listed = λ k. some [];
}

abbrev port : Config
port = record { container_port = codes "9091" }

abbrev conversation : Text
conversation = codes "0a1b2c3d-4e5f"

abbrev dead : Session
dead = record { container_id = codes "c1"; client = codes "u"; last_used = 3; idle_timer = 5 }

abbrev manager : Manager
manager = record {
  sessions = (conversation, dead) ∷ [];
  armed = (5, conversation) ∷ [];
  calls = 9;
  sent = [];
}

get_or_create-Gives_example :
    Gives conversation manager (get_or_create docker port conversation (codes "{}") manager)
get_or_create-Gives_example = get_or_create-Gives docker port conversation (codes "{}") manager

stop-Stopped_example : Stopped conversation manager (stop docker port conversation manager)
stop-Stopped_example = stop-Stopped docker port conversation manager

-- The dead session's timer is 5.
abbrev replaced : Manager
replaced = (get_or_create docker port conversation [] manager).1

stale_timer_example :
    (new : Session) × (lookup conversation replaced.sessions ≡ some new)
    × (new.idle_timer ≢ 5)
    × (any (is_timer new.idle_timer) replaced.armed ≡ true)
    × (any (is_timer 5) replaced.armed ≡ true)
    × ((fire docker port 5 conversation replaced).1.sent
        ≡ remove new.container_id ∷ stop_container new.container_id ∷ replaced.sent)
    × (lookup conversation (fire docker port 5 conversation replaced).1.sessions ≡ none)
unfolding get_or_create reuse create_session wait_for_ready poll register
stale_timer_example =
    get_or_create-stale_timer docker port conversation [] (client_url docker port conversation) dead
      manager (λ k. refl) refl (omega arith) refl refl refl
