-- ===== src/Vault/Stored.antt =====
-- What a fetch gives right after a store.
use cc_tunnel.Common.{
  ℕ, ◌≡◌, refl, inl, inr, true, some, List, Text, ==_iff, find_first, find_first-some,
  find_first-update_same, find_first-append_new, same_text_refl, any, Bool-cases,
}
use cc_tunnel.Vault.{
  done, IsAead, Encryptor, Credential, is_for, or_not_found, upsert, inserted, replaced,
  get_by_username, open_sealed, opened,
}
use cc_tunnel.Vault.Service.{decrypt, fetch_row, fetch_and_decrypt, store_credential}

module _ (e : Encryptor) (law : IsAead e.aead) (i now : ℕ) (u nonce json : Text) where
  abbrev sealed : Text
  sealed = e.aead.seal_text nonce json u

  opens : opened (e.aead.open_text nonce sealed u) ≡ done json
  opens = rw (law nonce json u) refl

  found-upsert :
      (rows : List Credential)
      → decrypt e u
          (or_not_found (find_first (is_for u) (upsert i now u sealed nonce e.key_version rows)))
        ≡ done json
  unfolding upsert open_sealed
  found-upsert rows = elim (Bool-cases (any (is_for u) rows)) [
    | inl k ↦
        let (c, found) = find_first-some (is_for u) rows k in
        rw
          (
            k,
            find_first-update_same (is_for u) (replaced now sealed nonce e.key_version) (λ c. refl)
                rows,
            found,
            (==_iff e.key_version e.key_version).1 refl,
          )
          opens
    | inr k ↦
        rw
          (
            k,
            find_first-append_new (is_for u) rows (inserted i now u sealed nonce e.key_version) k
                (same_text_refl u),
            (==_iff e.key_version e.key_version).1 refl,
          )
          opens
  ]

  -- The store answers, and a fetch then gives the stored text, whatever the table was.
  pub fetch-store :
      (rows : List Credential)
      → ((store_credential e (some nonce) true i now u json rows).0 ≡ done tt)
        × (fetch_and_decrypt e true u (store_credential e (some nonce) true i now u json rows).1
            ≡ done json)
  unfolding store_credential fetch_and_decrypt fetch_row get_by_username
  fetch-store rows = (refl, found-upsert rows)
