-- ===== src/Vault.antt =====
-- apps/cc-tunnel/internal/credential: encryptor.go and repository.go. AES-GCM is a parameter. A
-- text is a list of bytes.
pub mod Service
pub mod Book
pub mod Refines
pub mod Stored
use cc_tunnel.Common.{
  ℕ, Bool, true, false, not, Option, none, some, List, [], ◌∷◌, ◌++◌, ◌≡◌, Text, length, ◌==◌,
  if◌then◌else◌, same_text, select, update_where, find_first, any,
}

-- The errors that the package tells apart; `database` is any other error of the database.
pub data Fault : Type 0 where
  not_found credentials_invalid key_version_mismatch : Fault
  invalid_key_length random_failed decryption_failed database : Fault

pub data Answer (A : Type 0) : Type 0 where
  done : A → Answer A
  failed : Fault → Answer A

-- cipher.AEAD: the arguments are the nonce, the text and the additional data.
pub record Aead : Type 0 where
  pub seal_text : Text → Text → Text → Text
  pub open_text : Text → Text → Text → Option Text

-- What is sealed opens with the same nonce and additional data.
abbrev pub IsAead : Aead → Type 0
IsAead a =
    (nonce plaintext data_ : Text)
    → a.open_text nonce (a.seal_text nonce plaintext data_) data_ ≡ some plaintext

pub record Encryptor : Type 0 where
  pub aead : Aead
  pub key_version : ℕ

-- `gcm` is cipher.NewGCM of aes.NewCipher, which fail on no key of 32 bytes.
unfoldable pub new_encryptor : (Text → Aead) → Text → ℕ → Answer Encryptor
new_encryptor gcm key key_version =
    if length key == 32
    then done (record { aead = gcm key; key_version = key_version })
    else failed Fault.invalid_key_length

-- `random` is what rand.Read fills the nonce with, none when it fails.
unfoldable pub seal : Encryptor → Option Text → Text → Text → Answer (Text × Text)
seal e none plaintext username = failed Fault.random_failed
seal e (some nonce) plaintext username = done (e.aead.seal_text nonce plaintext username, nonce)

abbrev pub opened : Option Text → Answer Text
opened none = failed Fault.decryption_failed
opened (some plaintext) = done plaintext

unfoldable pub open_sealed : Encryptor → Text → Text → Text → Answer Text
open_sealed e ciphertext nonce username = opened (e.aead.open_text nonce ciphertext username)

pub record Credential : Type 0 where
  pub id : ℕ
  pub username : Text
  pub encrypted_data : Text
  pub nonce : Text
  pub key_version : ℕ
  pub is_valid : Bool
  pub last_validated : Option ℕ
  pub created_at : ℕ
  pub updated_at : ℕ

abbrev pub is_for : Text → Credential → Bool
is_for username c = same_text c.username username

abbrev pub or_not_found : Option Credential → Answer Credential
or_not_found none = failed Fault.not_found
or_not_found (some c) = done c

-- The statements on the table, when the database answers.
unfoldable pub get_by_username : Text → List Credential → Answer Credential
get_by_username username rows = or_not_found (find_first (is_for username) rows)

abbrev pub made_invalid : ℕ → Credential → Credential
made_invalid now c = record c { is_valid = false; updated_at = now }

unfoldable pub mark_row_invalid : ℕ → Text → List Credential → List Credential
mark_row_invalid now username = update_where (is_for username) (made_invalid now)

abbrev pub inserted : ℕ → ℕ → Text → Text → Text → ℕ → Credential
inserted new_id now username encrypted_data nonce key_version = record {
  id = new_id;
  username = username;
  encrypted_data = encrypted_data;
  nonce = nonce;
  key_version = key_version;
  is_valid = true;
  last_validated = none;
  created_at = now;
  updated_at = now;
}

abbrev pub replaced : ℕ → Text → Text → ℕ → Credential → Credential
replaced now encrypted_data nonce key_version c = record c {
  encrypted_data = encrypted_data;
  nonce = nonce;
  key_version = key_version;
  is_valid = true;
  updated_at = now;
}

-- ON CONFLICT (username) DO UPDATE; the id and the other columns of a new row are defaults.
unfoldable pub upsert : ℕ → ℕ → Text → Text → Text → ℕ → List Credential → List Credential
upsert new_id now username encrypted_data nonce key_version rows =
    if any (is_for username) rows
    then update_where (is_for username) (replaced now encrypted_data nonce key_version) rows
    else rows ++ (inserted new_id now username encrypted_data nonce key_version ∷ [])

unfoldable pub delete_row : Text → List Credential → List Credential
delete_row username = select (λ c. not (is_for username c))
