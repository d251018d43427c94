-- ===== src/SecureMode/Vault/Success.antt =====
-- `EncryptFile` of internal/securemode/vault.go on a disk that works.
use asscor.Prelude.{
  ◌≡◌, refl, sym, List, [], ◌∷◌, Bytes, bytes_beq_iff, insert, remove, lookup-insert_self, bytes_eq,
  lookup, lookup-remove, lookup-insert_ne, same-ne, ◌∙◌, none,
}
use asscor.SecureMode.Memory.{Memory}
use asscor.SecureMode.Crypt.{ok, Primitives, Random}
use asscor.SecureMode.Disk.{
  Files, World, tmp_of, done, draw, read_file, write_private, sync_file, remove_file, rename_file,
  write_file, sync_dir,
}
use asscor.SecureMode.Disk.Calls.{Held}
use asscor.SecureMode.Vault.Files.{
  Vault, enc_path, payload_with, make_payload, open_payload, encrypt_file,
}
use asscor.SecureMode.Vault.Keeps.{
  Plain, enc_ne, tmp_ne, tmp_enc_ne, remove-gone, Held-insert, Held-remove,
}

-- A world whose every call works.
abbrev pub fair : Files → List Random → List Files → Memory → World
fair fs rs seen m = record { files = fs; faults = []; random = rs; seen = seen; memory = m }

module _ (rs : List Random) (seen : List Files) (m : Memory) (fs : Files) where
  sync-fair :
      (p b : Bytes)
      → Held p b fs
      → sync_file p (fair fs rs seen m) ≡ (done tt, fair fs rs (fs ∷ fs ∷ seen) m)
  unfolding sync_file
  sync-fair p b h = simp h

  read-fair :
      (p b : Bytes)
      → Held p b fs
      → read_file p (fair fs rs seen m) ≡ (done b, fair fs rs (fs ∷ seen) m)
  unfolding read_file
  read-fair p b h = simp h

  write-fair :
      (p b : Bytes)
      → write_private p b (fair fs rs seen m)
        ≡ (done tt, fair (insert p b fs) rs (insert p b fs ∷ insert p b fs ∷ seen) m)
  unfolding write_private write_file
  write-fair p b = simp lookup-insert_self

  rename-fair :
      (p q b : Bytes)
      → Held p b fs
      → rename_file p q (fair fs rs seen m)
        ≡ (done tt, fair (insert q b (remove p fs)) rs (insert q b (remove p fs) ∷ seen) m)
  unfolding rename_file
  rename-fair p q b h = simp h

  remove-fair :
      (p b : Bytes)
      → Held p b fs
      → remove_file p (fair fs rs seen m) ≡ (done tt, fair (remove p fs) rs (remove p fs ∷ seen) m)
  unfolding remove_file
  remove-fair p b h = simp h

  dir-fair : sync_dir (fair fs rs seen m) ≡ (done tt, fair fs rs (fs ∷ seen) m)
  unfolding sync_dir
  dir-fair = refl

module _ (c : Primitives) (v : Vault) (password content : Bytes) where
  ends_right :
      (p : Bytes) (fs : Files)
      → let t = tmp_of (enc_path v) in
        let after = remove v.config_path (insert (enc_path v) p (remove t (insert t p fs))) in
        Held (enc_path v) p after × ((lookup v.config_path after ≡ none) × (lookup t after ≡ none))
  ends_right p fs =
      let t = tmp_of (enc_path v) in
      let base = remove t (insert t p fs) in
      let put = insert (enc_path v) p base in
      (
        Held-remove (enc_path v) v.config_path p put (enc_ne v)
            (lookup-insert_self (enc_path v) p base),
        (
          remove-gone v.config_path put,
          lookup-remove v.config_path t put
              ∙ rw (same-ne v.config_path t (λ e. tmp_enc_ne v (sym e))) (
                  lookup-insert_ne (enc_path v) t p base (λ e. tmp_ne (enc_path v) (sym e))
                  ∙ remove-gone t (insert t p fs)),
        ),
      )

  -- On a disk that refuses nothing, for every plain file whose content `Encrypt` can encrypt, if what
  -- it makes opens to the content, `EncryptFile` returns without an error, and then the .enc file has
  -- what was made, while neither the plain file nor the temporary file is left.
  pub encrypt_file_succeeds :
      (r : Random) (p : Bytes) (rs : List Random) (seen : List Files) (m : Memory) (fs : Files)
      → Plain c v content fs
      → payload_with c v password content r ≡ ok p
      → open_payload c v password p ≡ ok content
      → let after = encrypt_file c v password (fair fs (r ∷ rs) seen m) in
        (after.0 ≡ done tt)
        × (Held (enc_path v) p after.1.files
            × ((lookup v.config_path after.1.files ≡ none)
                × (lookup (tmp_of (enc_path v)) after.1.files ≡ none)))
  unfolding encrypt_file make_payload draw
  encrypt_file_succeeds r p rs seen m fs h made opens =
      let t = tmp_of (enc_path v) in
      let fs1 = insert t p fs in
      let held = lookup-insert_self t p fs in
      let kept =
        Held-insert v.config_path (enc_path v) content p (remove t fs1) (λ e. enc_ne v (sym e))
          (Held-remove v.config_path t content fs1 (tmp_enc_ne v)
            (Held-insert v.config_path t content p fs (tmp_enc_ne v) h)) in
      rw
        (
          sync-fair (r ∷ rs) _ m fs v.config_path content h,
          read-fair (r ∷ rs) _ m fs v.config_path content h,
          made,
          write-fair rs _ m fs t p,
          sync-fair rs _ m fs1 t p held,
          opens,
          (bytes_beq_iff content content).1 refl,
          rename-fair rs _ m fs1 t (enc_path v) p held,
          dir-fair rs _ m _,
          remove-fair rs _ m _ v.config_path content kept,
          dir-fair rs _ m _,
        )
        (refl, ends_right p fs)
