-- ===== src/SecureMode/Vault/Rotate.antt =====
-- `RotatePassword` of internal/securemode/vault.go.
use asscor.Prelude.{◌≡◌, subst, ◌⊎◌, inl, inr, Bytes, insert, remove, lookup-insert_self, bytes_eq}
use asscor.SecureMode.Crypt.{ok, Primitives, Random}
use asscor.SecureMode.Disk.{Files, World, tmp_of}
use asscor.SecureMode.Disk.Rules.{
  IsSized, History, Safe, Ensures, weaken-Ensures, given-Ensures, bind-Ensures, of_result-Ensures,
}
use asscor.SecureMode.Disk.Calls.{Held, Ignores, read-Ensures, replace-Ensures}
use asscor.SecureMode.Vault.Files.{Vault, enc_path, payload_with, open_payload, rotate_password}
use asscor.SecureMode.Vault.Keeps.{
  Stored-opens, Stored, tmp_ne, Stored-Ignores, either-Ignores, payload-Ensures,
}

module _ (c : Primitives) (v : Vault) (old new content : Bytes) where
  abbrev Either : Files → Type 0
  Either fs = Stored c v old content fs ⊎ Stored c v new content fs

  ignored : Ignores (tmp_of (enc_path v)) Either
  ignored =
      let t = tmp_of (enc_path v) in
      let n = tmp_ne (enc_path v) in
      either-Ignores t (Stored c v old content) (Stored c v new content)
        (Stored-Ignores c v t old content n) (Stored-Ignores c v t new content n)

  rotate-Ensures :
      ((r : Random) (p : Bytes)
        → IsSized r
        → payload_with c v new content r ≡ ok p
        → open_payload c v new p ≡ ok content)
      → Ensures Either
          (Stored c v old content)
          (rotate_password c v old new)
          (λ _. Stored c v new content)
  unfolding rotate_password
  rotate-Ensures seals = bind-Ensures (read-Ensures {P = Stored c v old content} (enc_path v)) λ p.
      bind-Ensures
        (of_result-Ensures {P = λ fs. Stored c v old content fs × Held (enc_path v) p fs}
          {Q = λ b fs. b ≡ content} (open_payload c v old p)
          (λ b fs o h. Stored-opens c v old content p b fs h.0 h.1 o))
        λ b.
          given-Ensures (b ≡ content) (λ fs h. h)
            λ e.
              weaken-Ensures (λ fs. Unit) (λ fs h. tt)
                (bind-Ensures (payload-Ensures c v {P = λ fs. Unit} new b) λ q.
                  given-Ensures (open_payload c v new q ≡ ok content)
                    (λ fs (t, r, s, h).
                      seals r q s (subst (λ d. payload_with c v new d r ≡ ok q) e h))
                    λ o.
                      weaken-Ensures (λ fs. Unit) (λ fs h. tt)
                        (replace-Ensures (enc_path v) q ignored ((λ fs d h. tt), λ fs h. tt)
                          λ fs i h.
                            let gs = remove (tmp_of (enc_path v)) fs in
                            let s : Stored c v new content (insert (enc_path v) q gs) =
                              (q, lookup-insert_self (enc_path v) q gs, o) in
                            (inr s, s)))

  -- Whatever the system answers to the calls of `RotatePassword`, and wherever it is killed between
  -- two of them: where the encrypted file opened to a content under the old password before, it opens
  -- to that content in every state on the way and at the end, under the old password or under the new
  -- one, and under the new one if there is no error; if what `Encrypt` makes of the content under the
  -- new password opens again.
  pub rotate_password_keeps :
      ((r : Random) (p : Bytes)
        → IsSized r
        → payload_with c v new content r ≡ ok p
        → open_payload c v new p ≡ ok content)
      → (w : World) → History Either w
      → Stored c v old content w.files
      → Safe Either (λ _. Stored c v new content) (rotate_password c v old new w)
  rotate_password_keeps seals w e h = (rotate-Ensures seals).run w e (inl h) h
