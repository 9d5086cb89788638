-- ===== src/Examples/Secrets.antt =====
-- Calls of the credential service with a cipher that marks its texts, and titles.
use cc_tunnel.Common.{
  ℕ, ◌≡◌, refl, true, Option, none, some, List, [], ◌∷◌, Text, ◌==◌, if◌then◌else◌, length, codes,
  arith,
}
use cc_tunnel.Vault.{Fault, done, failed, Aead, new_encryptor}
use cc_tunnel.Vault.Book.{
  Call, store, invalidate, delete, fetch, Reply, wrote, fetched, promised_all, serve_all,
}
use cc_tunnel.Vault.Refines.{IsAeads, serve_all-promised_all}
use cc_tunnel.Turn.Title.{generate_title}
use cc_tunnel.Turn.Title.Bounds.{IsTitle, generate_title-IsTitle}

abbrev marking_open : Text → Text → Text → Option Text
marking_open nonce [] user = none
marking_open nonce (mark ∷ t) user = if mark == length user then some t else none

abbrev pub keyring : ℕ → Aead
keyring version = record { seal_text = λ nonce t user. length user ∷ t; open_text = marking_open }

pub keyring-IsAeads : IsAeads keyring
keyring-IsAeads version nonce t user = ground arith

abbrev pub ann : Text
ann = codes "ann"

abbrev pub bob : Text
bob = codes "bob"

abbrev calls : List (ℕ × Call)
calls =
    (1, fetch true ann)
    ∷ (1, store (some (codes "n")) true 5 100 ann (codes "{}"))
    ∷ (1, fetch true ann)
    ∷ (2, fetch true ann)
    ∷ (1, fetch true bob)
    ∷ (1, invalidate true 101 ann)
    ∷ (1, fetch true ann)
    ∷ (2, store (some (codes "m")) true 6 102 ann (codes "[]"))
    ∷ (2, fetch true ann)
    ∷ (2, delete true ann)
    ∷ (2, fetch true ann)
    ∷ []

abbrev replies : List Reply
replies =
    fetched (failed Fault.not_found)
    ∷ wrote (done tt)
    ∷ fetched (done (codes "{}"))
    ∷ fetched (failed Fault.key_version_mismatch)
    ∷ fetched (failed Fault.not_found)
    ∷ wrote (done tt)
    ∷ fetched (failed Fault.credentials_invalid)
    ∷ wrote (done tt)
    ∷ fetched (done (codes "[]"))
    ∷ wrote (done tt)
    ∷ fetched (failed Fault.not_found)
    ∷ []

serve_all_test : serve_all keyring calls [] ≡ replies
unfolding serve_all
serve_all_test = refl

serve_all-promised_all_example : serve_all keyring calls [] ≡ promised_all calls (λ _. none)
serve_all-promised_all_example = serve_all-promised_all keyring keyring-IsAeads calls

short_key_test :
    new_encryptor (λ key. keyring 0) (codes "short") 1 ≡ failed Fault.invalid_key_length
unfolding new_encryptor
short_key_test = refl

title_test :
    generate_title (codes "## Summary\n\nUse **bold**,\t`code` and __both__ ")
    ≡ codes "Summary Use bold, code and both"
unfolding generate_title
title_test = refl

generate_title-IsTitle_example : IsTitle (generate_title (codes "# A *title*\r\nof two lines"))
generate_title-IsTitle_example = generate_title-IsTitle (codes "# A *title*\r\nof two lines")
