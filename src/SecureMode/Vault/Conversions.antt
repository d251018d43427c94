-- ===== src/SecureMode/Vault/Conversions.antt =====
-- What `EncryptFile` and `DecryptFile` of internal/securemode/vault.go leave at every moment.
use asscor.Prelude.{
  ◌≡◌, sym, ◌∙◌, ap, subst, inl, inr, some, Bytes, insert, remove, lookup-insert_self, bytes_eq,
}
use mathlib.Core.Option.{some-injective}
use asscor.SecureMode.Crypt.{ok, Primitives}
use asscor.SecureMode.Disk.{
  Files, World, ◌>>=◌, ◌>>◌, or_undo, of_result, tmp_of, sync_file, remove_file, rename_file,
  write_file, sync_dir,
}
use asscor.SecureMode.Disk.Rules.{
  History, Safe, Ensures, weaken-Ensures, given-Ensures, bind-Ensures, or_undo-Ensures,
  of_result-Ensures,
}
use asscor.SecureMode.Disk.Calls.{
  Held, Ignores, read-Ensures, sync-Ensures, sync_dir-Ensures, write-Ensures, remove-Ensures,
  rename-Ensures, write_private-Ensures, tidy-Ensures,
}
use asscor.SecureMode.Vault.Files.{
  Vault, enc_path, open_payload, encrypt_file, decrypt_file, check_same,
}
use asscor.SecureMode.Vault.Keeps.{
  remove-gone, Stored-opens, Stored, Plain, Kept, Gone, tmp_ne, enc_ne, tmp_enc_ne, tmp_config_ne,
  Held-remove, Held-Ignores, Stored-Ignores, Kept-Ignores, payload-Ensures, check-Ensures,
}

module _ (c : Primitives) (v : Vault) (password content : Bytes) where
  abbrev tmp_enc : Bytes
  tmp_enc = tmp_of (enc_path v)

  ignored : Ignores tmp_enc (Kept c v password content)
  ignored = Kept-Ignores c v tmp_enc password content (tmp_enc_ne v) (tmp_ne (enc_path v))

  abbrev Written : Bytes → Files → Type 0
  Written p fs = Plain c v content fs × Held tmp_enc p fs

  commit_lem :
      (p d ver b : Bytes) (fs : Files)
      → Held tmp_enc p fs
      → Held tmp_enc d fs
      → open_payload c v password p ≡ ok ver
      → ver ≡ b
      → b ≡ content
      → Stored c v password content (insert (enc_path v) d (remove tmp_enc fs))
  commit_lem p d ver b fs held e opens same e' =
      let q = some-injective p d (sym held ∙ e) in
      (
        d,
        lookup-insert_self (enc_path v) d (remove tmp_enc fs),
        subst (λ x. open_payload c v password x ≡ ok content) q (opens ∙ ap ok (same ∙ e')),
      )

  encrypt_written :
      (p b : Bytes)
      → b ≡ content
      → Ensures
          (Kept c v password content)
          (Written p)
          (do
            or_undo (sync_file tmp_enc) (remove_file tmp_enc)
            ver ← or_undo (of_result (open_payload c v password p)) (remove_file tmp_enc)
            or_undo (check_same ver b) (remove_file tmp_enc)
            or_undo (rename_file tmp_enc (enc_path v)) (remove_file tmp_enc)
            sync_dir
            remove_file v.config_path
            sync_dir)
          (λ _ fs. Stored c v password content fs × Gone c v v.config_path fs)
  encrypt_written p b e =
      let tidy = tidy-Ensures tmp_enc ignored in
      bind-Ensures (or_undo-Ensures (sync-Ensures {P = Written p} tmp_enc) tidy) λ _.
        bind-Ensures
          (or_undo-Ensures
            (of_result-Ensures {P = Written p}
              {Q = λ ver fs. Written p fs × (open_payload c v password p ≡ ok ver)}
              (open_payload c v password p) (λ ver fs o h. (h, o)))
            tidy)
          λ ver.
            bind-Ensures
              (or_undo-Ensures
                (check-Ensures c v {P = λ fs. Written p fs × (open_payload c v password p ≡ ok ver)}
                  ver b)
                tidy)
              λ _.
                bind-Ensures
                  (or_undo-Ensures
                    (rename-Ensures {Q = λ _. Stored c v password content} tmp_enc (enc_path v)
                      λ fs d i h held.
                        let s = commit_lem p d ver b fs h.0.0.1 held h.0.1 h.1 e in (inr s, s))
                    tidy)
                  λ _. bind-Ensures (sync_dir-Ensures {P = Stored c v password content}) λ _.
                    bind-Ensures
                      (remove-Ensures
                        {Q = λ _ fs. Stored c v password content fs × Gone c v v.config_path fs}
                        v.config_path
                        λ fs d i h held.
                          let n = enc_ne v in
                          let s = (Stored-Ignores c v v.config_path password content n).1 fs h in
                          (inr s, (s, remove-gone v.config_path fs)))
                      λ _. sync_dir-Ensures

  encrypt_file-Ensures :
      Ensures
        (Kept c v password content)
        (Plain c v content)
        (encrypt_file c v password)
        (λ _ fs. Stored c v password content fs × Gone c v v.config_path fs)
  unfolding encrypt_file
  encrypt_file-Ensures = bind-Ensures (sync-Ensures {P = Plain c v content} v.config_path) λ _.
      bind-Ensures (read-Ensures {P = Plain c v content} v.config_path) λ b.
        given-Ensures (b ≡ content) (λ fs h. some-injective b content (sym h.1 ∙ h.0))
          λ e. bind-Ensures (payload-Ensures c v password b) λ p.
            weaken-Ensures (Plain c v content) (λ fs h. h.0.0)
              (bind-Ensures
                (write_private-Ensures {P = Plain c v content} tmp_enc p ignored
                  (Held-Ignores v.config_path tmp_enc content (tmp_enc_ne v)))
                λ _. encrypt_written p b e)

  abbrev tmp_plain : Bytes
  tmp_plain = tmp_of v.config_path

  plain_ignored : Ignores tmp_plain (Kept c v password content)
  plain_ignored =
      Kept-Ignores c v tmp_plain password content (tmp_ne v.config_path) (tmp_config_ne v)

  abbrev Restored : Files → Type 0
  Restored fs = Held tmp_plain content fs

  decrypt_read :
      (b : Bytes)
      → b ≡ content
      → Ensures
          (Kept c v password content)
          (Stored c v password content)
          (do
            write_file tmp_plain b
            or_undo (sync_file tmp_plain) (remove_file tmp_plain)
            or_undo (rename_file tmp_plain v.config_path) (remove_file tmp_plain)
            sync_dir
            remove_file (enc_path v)
            sync_dir)
          (λ _ fs. Plain c v content fs × Gone c v (enc_path v) fs)
  decrypt_read b e =
      let tidy = tidy-Ensures tmp_plain plain_ignored in
      bind-Ensures
        (write-Ensures tmp_plain b plain_ignored
          (Stored-Ignores c v tmp_plain password content (tmp_config_ne v)))
        λ _.
          weaken-Ensures (Held tmp_plain b) (λ fs h. h.1)
            (bind-Ensures (or_undo-Ensures (sync-Ensures {P = Held tmp_plain b} tmp_plain) tidy)
              λ _.
                bind-Ensures
                  (or_undo-Ensures
                    (rename-Ensures {Q = λ _. Plain c v content} tmp_plain v.config_path
                      λ fs d i h held.
                        let same = some-injective d content (sym held ∙ (h ∙ ap some e)) in
                        let s =
                          lookup-insert_self v.config_path d (remove tmp_plain fs) ∙ ap some same in
                        (inl s, s))
                    tidy)
                  λ _. bind-Ensures (sync_dir-Ensures {P = Plain c v content}) λ _.
                    bind-Ensures
                      (remove-Ensures {Q = λ _ fs. Plain c v content fs × Gone c v (enc_path v) fs}
                        (enc_path v)
                        λ fs d i h held.
                          let n = λ (q : enc_path v ≡ v.config_path). enc_ne v (sym q) in
                          let s = Held-remove v.config_path (enc_path v) content fs n h in
                          (inl s, (s, remove-gone (enc_path v) fs)))
                      λ _. sync_dir-Ensures)

  decrypt_file-Ensures :
      Ensures
        (Kept c v password content)
        (Stored c v password content)
        (decrypt_file c v password)
        (λ _ fs. Plain c v content fs × Gone c v (enc_path v) fs)
  unfolding decrypt_file
  decrypt_file-Ensures =
      bind-Ensures (read-Ensures {P = Stored c v password content} (enc_path v)) λ p.
        bind-Ensures
          (of_result-Ensures {P = λ fs. Stored c v password content fs × Held (enc_path v) p fs}
            {Q = λ b fs. Stored c v password content fs × (b ≡ content)}
            (open_payload c v password p)
            (λ b fs o h. (h.0, Stored-opens c v password content p b fs h.0 h.1 o)))
          λ b.
            given-Ensures (b ≡ content) (λ fs h. h.1)
              λ e. weaken-Ensures (Stored c v password content) (λ fs h. h.0) (decrypt_read b e)

  -- Whatever the system answers to the calls of `EncryptFile`, and wherever it is killed between two
  -- of them: as long as the plain file held a content before, every state of the files on the way and
  -- at the end has that content, in the plain file or in an encrypted file that `decryptPayload` opens
  -- to it with the password. If it returns without an error, the encrypted file is there, opens to
  -- the content, and the plain file is gone.
  pub encrypt_file_keeps :
      (w : World)
      → History (Kept c v password content) w
      → Plain c v content w.files
      → Safe
          (Kept c v password content)
          (λ _ fs. Stored c v password content fs × Gone c v v.config_path fs)
          (encrypt_file c v password w)
  encrypt_file_keeps w e h = encrypt_file-Ensures.run w e (inl h) h

  -- The same for `DecryptFile`, where the encrypted file opened to the content before. If it returns
  -- without an error, the plain file holds the content, and the encrypted file is gone.
  pub decrypt_file_keeps :
      (w : World)
      → History (Kept c v password content) w
      → Stored c v password content w.files
      → Safe
          (Kept c v password content)
          (λ _ fs. Plain c v content fs × Gone c v (enc_path v) fs)
          (decrypt_file c v password w)
  decrypt_file_keeps w e h = decrypt_file-Ensures.run w e (inr h) h
