-- ===== src/Vault/Refines.antt =====
-- The store of encrypted rows behaves as a map of credentials in the clear.
use cc_tunnel.Common.{
  ℕ, ◌≡◌, refl, inl, inr, true, false, Option, none, some, List, [], ◌∷◌, Text, ◌==◌, same_text,
  same_text_refl, same_text-≡, find_first, find_first-update_same, find_first-update_other,
  find_first-append, find_first-append_new, find_first-select, find_first-select_absent,
  find_first-some, any, select, update_where, Bool-cases, ==_iff, sym, ap, ◌∙◌, ◌++◌, not,
}
use mathlib.Core.Option
use mathlib.Core.Bool.{true≢false}
use mathlib.Core.Path.{subst, ap₂}
use cc_tunnel.Vault.{
  Aead, IsAead, seal, open_sealed, Credential, is_for, get_by_username, mark_row_invalid, upsert,
  delete_row, inserted, replaced, made_invalid, opened, or_not_found,
}
use cc_tunnel.Vault.Service.{
  fetch_row, decrypt, fetch_and_decrypt, mark_invalid, store_credential, delete_credential,
}
use cc_tunnel.Vault.Book.{
  Call, store, invalidate, delete, fetch, fetched, Entry, Book, put, revoked, read, promised,
  promised_all, encryptor, serve, serve_all,
}

module _ (keyring : ℕ → Aead) where
  -- Each version's cipher opens what it sealed.
  abbrev pub IsAeads : Type 0
  IsAeads = (version : ℕ) → IsAead (keyring version)

  -- A row keeps an entry.
  abbrev Keeps : Text → Option Credential → Option Entry → Type 0
  Keeps u none none = Unit
  Keeps u (some c) (some e) =
      (c.is_valid ≡ e.valid)
      × (c.key_version ≡ e.version)
      × ((keyring c.key_version).open_text c.nonce c.encrypted_data u ≡ some e.json)
  Keeps u _ _ = ⊥

  -- The rows keep the map.
  abbrev KeepsAll : List Credential → Book → Type 0
  KeepsAll rows book = (w : Text) → Keeps w (find_first (is_for w) rows) (book w)

  other_row :
      (u w : Text)
      → same_text u w ≡ false
      → (c : Credential) → is_for w c ≡ true
      → is_for u c ≡ false
  other_row u w h c e = elim (Bool-cases (is_for u c)) [
    | inr k ↦ k
    | inl k ↦
        let same = sym (same_text-≡ c.username u k) ∙ same_text-≡ c.username w e in
        let h' = rw (same, same_text_refl w) at h in absurd (true≢false h')
  ]

  update-Keeps :
      (u : Text) (f : Credential → Credential) (x : Option Entry) (rows : List Credential)
      (book : Book)
      → ((c : Credential) → (f c).username ≡ c.username)
      → KeepsAll rows book
      → Keeps u (Option.map f (find_first (is_for u) rows)) x
      → KeepsAll (update_where (is_for u) f rows) (put u x book)
  update-Keeps u f x rows book same h k w = elim (Bool-cases (same_text u w)) [
    | inl e ↦ rw e (
        subst (λ w. Keeps w (find_first (is_for w) (update_where (is_for u) f rows)) x)
          (same_text-≡ u w e) (rw (find_first-update_same (is_for u) f (λ c. renamed u c) rows) k))
    | inr e ↦
        rw
          (
            e,
            find_first-update_other (is_for w) (is_for u) f (λ c. renamed w c) (other_row u w e)
                rows,
          )
          (h w)
  ]
    where
      renamed : (v : Text) (c : Credential) → is_for v (f c) ≡ is_for v c
      renamed v c = ap (λ t. same_text t v) (same c)

  upsert-Keeps :
      (i now : ℕ) (u data_ nonce : Text) (version : ℕ) (json : Text) (rows : List Credential)
      (book : Book)
      → KeepsAll rows book
      → (keyring version).open_text nonce data_ u ≡ some json
      → KeepsAll
          (upsert i now u data_ nonce version rows)
          (put u (some (record { version = version; valid = true; json = json })) book)
  unfolding upsert
  upsert-Keeps i now u data_ nonce version json rows book h opens =
      elim (Bool-cases (any (is_for u) rows)) [
        | inl e ↦
            let (c, found) = find_first-some (is_for u) rows e in
            rw e (
              update-Keeps u (replaced now data_ nonce version) (some new) rows book (λ c. refl) h
                (rw found (refl, refl, opens)))
        | inr e ↦ rw e (appended e)
      ]
    where
      new : Entry
      new = record { version = version; valid = true; json = json }

      row : Credential
      row = inserted i now u data_ nonce version

      appended : any (is_for u) rows ≡ false → KeepsAll (rows ++ row ∷ []) (put u (some new) book)
      appended e w = elim (Bool-cases (same_text u w)) [
        | inl k ↦ rw k (
            subst (λ w. Keeps w (find_first (is_for w) (rows ++ row ∷ [])) (some new))
              (same_text-≡ u w k)
              (rw (find_first-append_new (is_for u) rows row e (same_text_refl u))
                (refl, refl, opens)))
        | inr k ↦ rw (k, find_first-append (is_for w) rows row k) (h w)
      ]

  delete-Keeps :
      (u : Text) (rows : List Credential) (book : Book)
      → KeepsAll rows book
      → KeepsAll (delete_row u rows) (put u none book)
  unfolding delete_row
  delete-Keeps u rows book h w = elim (Bool-cases (same_text u w)) [
    | inl k ↦ rw k (
        subst (λ w. Keeps w (find_first (is_for w) (select (λ c. not (is_for u c)) rows)) none)
          (same_text-≡ u w k) (rw (find_first-select_absent (is_for u) rows) tt))
    | inr k ↦
        rw
          (
            k,
            find_first-select (is_for w) (λ c. not (is_for u c))
                (λ c e. ap not (other_row u w k c e)) rows,
          )
          (h w)
  ]

  invalid-Keeps :
      (now : ℕ) (u : Text) (rows : List Credential) (book : Book)
      → KeepsAll rows book
      → KeepsAll (mark_row_invalid now u rows) (put u (revoked (book u)) book)
  unfolding mark_row_invalid
  invalid-Keeps now u rows book h =
      update-Keeps u (made_invalid now) (revoked (book u)) rows book (λ c. refl) h
        (revoked-Keeps (find_first (is_for u) rows) (book u) (h u))
    where
      revoked-Keeps :
          (o : Option Credential) (x : Option Entry)
          → Keeps u o x
          → Keeps u (Option.map (made_invalid now) o) (revoked x)
      revoked-Keeps none none k = tt
      revoked-Keeps none (some e) k = absurd k
      revoked-Keeps (some c) none k = absurd k
      revoked-Keeps (some c) (some e) k = (refl, k.1, k.2)

  -- What is read is the entry's.
  fetch-Keeps :
      (version : ℕ) (u : Text) (rows : List Credential) (book : Book)
      → KeepsAll rows book
      → fetch_and_decrypt (encryptor keyring version) true u rows ≡ read version (book u)
  unfolding fetch_and_decrypt fetch_row get_by_username open_sealed
  fetch-Keeps version u rows book h = go (find_first (is_for u) rows) (book u) (h u)
    where
      go :
          (o : Option Credential) (x : Option Entry)
          → Keeps u o x
          → decrypt (encryptor keyring version) u (or_not_found o) ≡ read version x
      go none none k = refl
      go none (some e) k = absurd k
      go (some c) none k = absurd k
      go (some c) (some e) (valid, same, opens) =
          rw (valid, same)
            (elim (Bool-cases e.valid) [
              | inr a ↦ rw a refl
              | inl a ↦ rw a (elim (Bool-cases (e.version == version)) [
                | inr b ↦ rw b refl
                | inl b ↦
                    let v = same ∙ (==_iff e.version version).0 b in
                    rw b (ap opened (rw v at opens))
              ])
            ])

  serve-Keeps :
      IsAeads
      → (version : ℕ) (c : Call) (rows : List Credential) (book : Book) → KeepsAll rows book
      → ((serve keyring version c rows).0 ≡ (promised version c book).0)
        × KeepsAll (serve keyring version c rows).1 (promised version c book).1
  unfolding serve promised store_credential seal mark_invalid delete_credential fetch_and_decrypt
      fetch_row
  serve-Keeps law version (store none answers i now u json) rows book h = (refl, h)
  serve-Keeps law version (store (some nonce) true i now u json) rows book h =
      (refl, upsert-Keeps i now u _ nonce version json rows book h (law version nonce json u))
  serve-Keeps law version (store (some nonce) false i now u json) rows book h = (refl, h)
  serve-Keeps law version (invalidate true now u) rows book h =
      (refl, invalid-Keeps now u rows book h)
  serve-Keeps law version (invalidate false now u) rows book h = (refl, h)
  serve-Keeps law version (delete true u) rows book h = (refl, delete-Keeps u rows book h)
  serve-Keeps law version (delete false u) rows book h = (refl, h)
  serve-Keeps law version (fetch true u) rows book h =
      (ap fetched (fetch-Keeps version u rows book h), h)
  serve-Keeps law version (fetch false u) rows book h = (refl, h)

  serve_all-Keeps :
      IsAeads
      → (cs : List (ℕ × Call)) (rows : List Credential) (book : Book) → KeepsAll rows book
      → serve_all keyring cs rows ≡ promised_all cs book
  unfolding serve_all promised_all
  serve_all-Keeps law [] rows book h = refl
  serve_all-Keeps law ((version, c) ∷ cs) rows book h =
      let (same, next) = serve-Keeps law version c rows book h in
      ap₂ ◌∷◌ same (serve_all-Keeps law cs _ _ next)

  -- When each key version's cipher opens what it has sealed: the replies of the service to any
  -- sequence of calls, which may store, fetch, invalidate and delete the credentials of any users
  -- under changing key versions, on a table that is empty at first, are those of a map from users
  -- to credentials in the clear. A fetch gives the credentials last stored for that user; an error
  -- if there are none, if they were invalidated since, or if they were stored under another key
  -- version. A call that fails for the nonce or for the database changes nothing.
  pub serve_all-promised_all :
      IsAeads → (cs : List (ℕ × Call)) → serve_all keyring cs [] ≡ promised_all cs (λ _. none)
  serve_all-promised_all law cs = serve_all-Keeps law cs [] (λ _. none) (λ w. tt)
