-- ===== src/Vault/Service.antt =====
-- apps/cc-tunnel/internal/credential/service.go, and the deletion of a row, which
-- repository.go offers beside it.
use cc_tunnel.Common.{ℕ, Bool, true, false, Option, List, Text, ◌==◌, if◌then◌else◌}
use cc_tunnel.Vault.{
  Fault, Answer, done, failed, Encryptor, seal, open_sealed, Credential, get_by_username,
  mark_row_invalid, upsert, delete_row,
}

-- `answers` says whether the database answers the call, here and below.
unfoldable pub fetch_row : Bool → Text → List Credential → Answer Credential
unfolding get_by_username
fetch_row true username rows = get_by_username username rows
fetch_row false username rows = failed Fault.database

abbrev pub decrypt : Encryptor → Text → Answer Credential → Answer Text
decrypt e username (failed f) = failed f
decrypt e username (done c) =
    if c.is_valid
    then (if c.key_version == e.key_version
        then open_sealed e c.encrypted_data c.nonce username
        else failed Fault.key_version_mismatch)
    else failed Fault.credentials_invalid

unfoldable pub fetch_and_decrypt : Encryptor → Bool → Text → List Credential → Answer Text
unfolding fetch_row open_sealed
fetch_and_decrypt e answers username rows = decrypt e username (fetch_row answers username rows)

-- A statement that only writes.
abbrev written :
    Bool
    → (List Credential → List Credential)
    → List Credential
    → Answer (Unit {0}) × List Credential
written true f rows = (done tt, f rows)
written false f rows = (failed Fault.database, rows)

unfoldable pub mark_invalid :
    Bool → ℕ → Text → List Credential → Answer (Unit {0}) × List Credential
unfolding mark_row_invalid
mark_invalid answers now username = written answers (mark_row_invalid now username)

abbrev pub store_sealed :
    ℕ
    → Bool
    → ℕ
    → ℕ
    → Text
    → Answer (Text × Text)
    → List Credential
    → Answer (Unit {0}) × List Credential
store_sealed version answers new_id now username (failed f) rows = (failed f, rows)
store_sealed version answers new_id now username (done (ciphertext, nonce)) rows =
    written answers (upsert new_id now username ciphertext nonce version) rows

unfoldable pub store_credential :
    Encryptor
    → Option Text
    → Bool
    → ℕ
    → ℕ
    → Text
    → Text
    → List Credential
    → Answer (Unit {0}) × List Credential
unfolding seal upsert
store_credential e random answers new_id now username json =
    store_sealed e.key_version answers new_id now username (seal e random json username)

unfoldable pub delete_credential :
    Bool → Text → List Credential → Answer (Unit {0}) × List Credential
unfolding delete_row
delete_credential answers username = written answers (delete_row username)
