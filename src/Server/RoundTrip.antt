-- ===== src/Server/RoundTrip.antt =====
-- From a login in a session's container to the credentials of the next message.
use cc_tunnel.Common.{ℕ, suc, ◌≡◌, refl, sym, ◌∙◌, Bool, true, false, Option, none, some, ◌∷◌, Text}
use mathlib.Core.Option.{none-ne-some}
use cc_tunnel.Vault.{IsAead, Encryptor}
use cc_tunnel.Vault.Stored.{fetch-store}
use cc_tunnel.Remote.{Agent, post, written, handle_init, JsonStrings, handle_finalize_credentials}
use cc_tunnel.Remote.Client.{pulled, init_body, finalize_credentials}
use cc_tunnel.Server.{User, Server, bearer_token, passed}
use cc_tunnel.Server.Gate.{user_behind}
use cc_tunnel.Server.Send.{fetch_credential_or_respond, fetch_if}
use cc_tunnel.Server.Relogin.{post_relogin_finalize, finalize_for, checked_request}

-- What the server gets of an agent whose credentials file can be read.
pulled-finalize :
    (json : JsonStrings) (a : Agent) (c : ℕ) (cs : Text)
    → json.is_utf8 (c ∷ cs) ≡ true
    → a.credentials_file ≡ some (c ∷ cs)
    → finalize_credentials (some (handle_finalize_credentials json post true true a))
      ≡ pulled (c ∷ cs)
unfolding finalize_credentials handle_finalize_credentials
pulled-finalize json a c cs valid file = rw (file, json.keeps (c ∷ cs) valid) refl

-- What another agent's file is after the server's InitCredentials.
init-file :
    (json : JsonStrings) (b : Agent) (c : ℕ) (cs : Text)
    → json.is_utf8 (c ∷ cs) ≡ true
    → (handle_init post written (init_body json (c ∷ cs)) b).1.credentials_file ≡ some (c ∷ cs)
unfolding handle_init init_body
init-file json b c cs valid = rw (json.keeps (c ∷ cs) valid) refl

module _ (h : Server) (e : Encryptor) (law : IsAead e.aead) (on : h.service ≡ some e)
    (stores : h.storer ≡ some e) where
  finalized :
      (o : Option Text) (u : User) (nonce : Text) (touches : Bool) (new_id now i j c : ℕ)
      (cs : Text)
      → user_behind o h.sessions ≡ some u
      → ((finalize_for
            (pulled (c ∷ cs))
            (some nonce)
            true
            touches
            new_id
            now
            (checked_request o (some (suc i)) h)
            h).0.status
          ≡ 200)
        × (fetch_if
              (finalize_for
                (pulled (c ∷ cs))
                (some nonce)
                true
                touches
                new_id
                now
                (checked_request o (some (suc i)) h)
                h).1.service
              true
              o
              j
              (finalize_for
                (pulled (c ∷ cs))
                (some nonce)
                true
                touches
                new_id
                now
                (checked_request o (some (suc i)) h)
                h).1
            ≡ passed (c ∷ cs))
  finalized none u nonce touches new_id now i j c cs known = absurd (none-ne-some u known)
  finalized (some token) u nonce true new_id now i j c cs known =
      let (stored, fetched) = fetch-store e law new_id now u.name nonce (c ∷ cs) h.credentials in
      rw (known, stores, on, known, stored, fetched) (refl, refl)
  finalized (some token) u nonce false new_id now i j c cs known =
      let (stored, fetched) = fetch-store e law new_id now u.name nonce (c ∷ cs) h.credentials in
      rw (known, stores, on, known, stored, fetched) (refl, refl)

  -- When the cipher opens what it seals, the server checks and stores credentials with the same
  -- encryptor, and random bytes and the database are there: the credentials file that a login left
  -- in a session's agent, if it is not empty and UTF-8, is what a signed-in user's next message is
  -- sent with, after the user's request to finalize the login, which gets the status 200; and a
  -- further agent that is initialized with what is fetched then has a file with the same content.
  pub relogin-round_trip :
      (json : JsonStrings) (authorization : Text) (u : User) (a b : Agent) (nonce : Text)
      (touches : Bool) (new_id now i j c : ℕ) (cs : Text)
      → user_behind (bearer_token authorization) h.sessions ≡ some u
      → a.credentials_file ≡ some (c ∷ cs)
      → json.is_utf8 (c ∷ cs) ≡ true
      → (let pull =
            finalize_credentials (some (handle_finalize_credentials json post true true a)) in
          let (r, h') =
            post_relogin_finalize pull
              (some nonce)
              true
              touches
              new_id
              now
              authorization
              (some (suc i))
              h in
          (r.status ≡ 200)
          × ((fetched : Text) × (fetch_credential_or_respond true authorization j h'
                ≡ passed fetched)
              × ((handle_init post written (init_body json fetched) b).1.credentials_file
                  ≡ a.credentials_file)))
  unfolding post_relogin_finalize fetch_credential_or_respond
  relogin-round_trip json authorization u a b nonce touches new_id now i j c cs known file valid =
      let (status, fetched) =
        finalized (bearer_token authorization) u nonce touches new_id now i j c cs known in
      rw (pulled-finalize json a c cs valid file)
        (status, (c ∷ cs, fetched, init-file json b c cs valid ∙ sym file))
