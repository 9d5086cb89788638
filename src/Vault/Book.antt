-- ===== src/Vault/Book.antt =====
-- Calls of the credential service, on the rows and on a map of credentials in the clear.
use cc_tunnel.Common.{
  ℕ, Bool, true, false, Option, none, some, List, [], ◌∷◌, Text, ◌==◌, if◌then◌else◌, same_text,
}
use cc_tunnel.Vault.{Fault, Answer, done, failed, Aead, Encryptor, Credential}
use cc_tunnel.Vault.Service.{fetch_and_decrypt, mark_invalid, store_credential, delete_credential}

-- A call of the service, with what rand.Read and the database answer to it.
pub data Call : Type 0 where
  store : (random : Option Text) (answers : Bool) (new_id now : ℕ) (username json : Text) → Call
  invalidate : (answers : Bool) (now : ℕ) (username : Text) → Call
  delete : (answers : Bool) (username : Text) → Call
  fetch : (answers : Bool) (username : Text) → Call

pub data Reply : Type 0 where
  wrote : Answer (Unit {0}) → Reply
  fetched : Answer Text → Reply

-- What the map keeps of a user: the key version of the last store, and the credentials.
pub record Entry : Type 0 where
  pub version : ℕ
  pub valid : Bool
  pub json : Text

abbrev pub Book : Type 0
Book = Text → Option Entry

abbrev pub put : Text → Option Entry → Book → Book
put username x book other = if same_text username other then x else book other

abbrev pub revoked : Option Entry → Option Entry
revoked none = none
revoked (some e) = some (record e { valid = false })

abbrev pub read : ℕ → Option Entry → Answer Text
read version none = failed Fault.not_found
read version (some e) =
    if e.valid
    then (if e.version == version then done e.json else failed Fault.key_version_mismatch)
    else failed Fault.credentials_invalid

abbrev database_error : Book → Reply × Book
database_error book = (wrote (failed Fault.database), book)

-- The call on the map.
unfoldable pub promised : ℕ → Call → Book → Reply × Book
promised version (store none answers new_id now username json) book =
    (wrote (failed Fault.random_failed), book)
promised version (store (some nonce) true new_id now username json) book = (
  wrote (done tt),
  put username (some (record { version = version; valid = true; json = json })) book,
)
promised version (store (some nonce) false new_id now username json) book = database_error book
promised version (invalidate true now username) book =
    (wrote (done tt), put username (revoked (book username)) book)
promised version (invalidate false now username) book = database_error book
promised version (delete true username) book = (wrote (done tt), put username none book)
promised version (delete false username) book = database_error book
promised version (fetch true username) book = (fetched (read version (book username)), book)
promised version (fetch false username) book = (fetched (failed Fault.database), book)

-- The replies to calls, each made under the key of a version.
unfoldable pub promised_all : List (ℕ × Call) → Book → List Reply
unfolding promised
promised_all [] book = []
promised_all ((version, c) ∷ cs) book =
    let (r, next) = promised version c book in r ∷ promised_all cs next

module _ (keyring : ℕ → Aead) where
  abbrev pub encryptor : ℕ → Encryptor
  encryptor version = record { aead = keyring version; key_version = version }

  abbrev replied : Answer (Unit {0}) × List Credential → Reply × List Credential
  replied (a, rows) = (wrote a, rows)

  -- The call on the rows.
  unfoldable pub serve : ℕ → Call → List Credential → Reply × List Credential
  unfolding fetch_and_decrypt store_credential mark_invalid delete_credential
  serve version (store random answers new_id now username json) rows =
      replied (store_credential (encryptor version) random answers new_id now username json rows)
  serve version (invalidate answers now username) rows =
      replied (mark_invalid answers now username rows)
  serve version (delete answers username) rows = replied (delete_credential answers username rows)
  serve version (fetch answers username) rows =
      (fetched (fetch_and_decrypt (encryptor version) answers username rows), rows)

  unfoldable pub serve_all : List (ℕ × Call) → List Credential → List Reply
  unfolding serve
  serve_all [] rows = []
  serve_all ((version, c) ∷ cs) rows = let (r, next) = serve version c rows in r ∷ serve_all cs next
