-- ===== src/Examples/Web.antt =====
-- Requests to the server: a conversation whose second message resumes the first one's session, and
-- requests of users.
use cc_tunnel.Common.{ℕ, ◌≡◌, refl, true, none, some, [], ◌∷◌, Text, codes, arith}
use cc_tunnel.Chat.{ConversationStatus, Conversation}
use cc_tunnel.Vault.{Encryptor}
use cc_tunnel.Vault.Service.{fetch_and_decrypt}
use cc_tunnel.Turn.History.{build_execute_request}
use cc_tunnel.Turn.Persist.{tick, returned, execute_and_persist}
use cc_tunnel.Turn.Apply.{apply_writes}
use cc_tunnel.Server.{User, Server, respond, accepted, Answers, bearer_token}
use cc_tunnel.Server.Accounts.{app_auth_update_me}
use cc_tunnel.Server.Send.{Job, send_message, fetch_credential_or_respond, fetch_response}
use cc_tunnel.Server.Gate.{
  user_behind, Call, send, serve, IsRefused, serve-unauthorized, update_me-fetch_credential,
}
use cc_tunnel.Server.Resumes.{send_message-resumes}
use cc_tunnel.Examples.Secrets.{keyring}

abbrev chat : Conversation
chat = record {
  id = 7;
  title = codes "";
  model = codes "m";
  system_prompt = none;
  status = ConversationStatus.idle;
  created_at = 1;
  updated_at = 1;
}

abbrev server : Server
server = record {
  tables = record {
    conversations = chat ∷ [];
    messages = [];
    db = record { vms = []; endpoints = [] };
  };
  sessions = [];
  service = none;
  storer = none;
  credentials = [];
}

abbrev up : Answers
up k = true

abbrev uuid : ℕ → Text
uuid i = codes "u"

abbrev after_send : ℕ → ℕ → Server → Server
after_send a b h = (send_message uuid up [] a 10 b 11 7 (some (codes "hi")) h).2

abbrev first_job : Job
first_job = record {
  request = build_execute_request (codes "hi") (codes "u") chat [] [];
  message_id = 3;
}

abbrev sid : Text
sid = codes "s1"

abbrev between : Server
between = record (after_send 2 3 server) {
  tables =
      apply_writes (λ t. t) 7 3 12 (execute_and_persist (tick ∷ []) (returned sid))
        (after_send 2 3 server).tables;
}

first_sent :
    send_message uuid up [] 2 10 3 11 7 (some (codes "hi")) server
    ≡ (respond 202 (accepted 3), some first_job, after_send 2 3 server)
unfolding send_message
first_sent = refl

abbrev second_job : Job
second_job = record {
  request = build_execute_request (codes "hi") (codes "u") chat between.tables.messages [];
  message_id = 5;
}

abbrev last : Server
last = (send_message uuid up [] 4 90 5 91 7 (some (codes "hi")) between).2

second_sent :
    send_message uuid up [] 4 90 5 91 7 (some (codes "hi")) between
    ≡ (respond 202 (accepted 5), some second_job, last)
unfolding send_message apply_writes execute_and_persist
second_sent = refl

send_message-resumes_example : second_job.request.session_id ≡ codes "s1"
send_message-resumes_example =
    send_message-resumes uuid (λ t. t) 7 up [] 2 10 3 11 (codes "hi") server (after_send 2 3 server)
      (respond 202 (accepted 3)) first_job first_sent tt (omega arith) (tick ∷ []) (codes "s1") refl
      12 between refl up [] 4 90 5 91 (codes "hi") last (respond 202 (accepted 5)) second_job
      second_sent

abbrev pub encryptor : Encryptor
encryptor = record { aead = keyring 1; key_version = 1 }

abbrev pub ann_user : User
ann_user = record { id = 1; name = codes "ann" }

abbrev pub guarded_server : Server
guarded_server = record server { sessions = (codes "t", ann_user) ∷ []; service = some encryptor }

pub known : user_behind (bearer_token (codes "Bearer t")) guarded_server.sessions ≡ some (ann_user)
unfolding bearer_token
known = refl

unknown : user_behind (bearer_token (codes "Bearer x")) guarded_server.sessions ≡ none
unfolding bearer_token
unknown = refl

abbrev hello : Call
hello = send 20 200 21 201 7 (some (codes "hi"))

serve-unauthorized_example :
    IsRefused hello (serve uuid up (codes "Bearer x") hello guarded_server) guarded_server
serve-unauthorized_example =
    serve-unauthorized uuid up (codes "Bearer x") hello guarded_server encryptor refl unknown

update_me-fetch_credential_example :
    fetch_credential_or_respond true
      (codes "Bearer t")
      7
      (app_auth_update_me (codes "Bearer t") (some (codes "bob")) guarded_server).1
    ≡ fetch_response 7 (fetch_and_decrypt encryptor true (codes "bob") guarded_server.credentials)
update_me-fetch_credential_example =
    update_me-fetch_credential true (codes "Bearer t") (codes "bob") 7 guarded_server encryptor
      (ann_user) refl known
