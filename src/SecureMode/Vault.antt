-- ===== src/SecureMode/Vault.antt =====
-- The layout of a protected file in internal/securemode/vault.go: a bootstrap section that stays
-- readable, a blank line, and the encrypted rest. Encryption and decryption are arguments.
pub mod Examples
pub mod Files
pub mod Opens
pub mod Rotate
pub mod Success
pub mod Layout
pub mod Keeps
pub mod Conversions
use asscor.Prelude.{
  ℕ, suc, ◌+◌, ◌≡◌, ◌≢◌, refl, sym, ap, ◌∙◌, Bool, true, false, ◌&&◌, not, List, [], ◌∷◌, ◌++◌,
  Option, none, some, arith, ltb, ◌==◌, if◌then◌else◌, Bytes, length, drop, has_prefix, push_left,
  Lacks, Bool-cases, Option-cases, inl, inr, subst,
}
use mathlib.Core.List.{append_assoc}
use asscor.SecureMode.Crypt.{Result, ok, err, ◌>>=◌}

-- A text cut before the first occurrence of another, which `strings.Index` finds.
unfoldable pub find : Bytes → Bytes → Option (Bytes × Bytes)
find p [] = if has_prefix p [] then some ([], []) else none
find p (c ∷ s) =
    let rest = find p s in if has_prefix p (c ∷ s) then some ([], c ∷ s) else push_left c rest

abbrev pub blank : Bytes
blank = 10 ∷ 10 ∷ []

pub record Parts : Type 0 where
  pub bootstrap : Bytes
  pub rest : Bytes
  pub is_split : Bool

split_after : Bytes → Bytes → Option (Bytes × Bytes) → Parts
split_after content pre none = record { bootstrap = content; rest = []; is_split = true }
split_after content pre (some (b, tail)) = record {
  bootstrap = pre ++ b;
  rest = drop 2 tail;
  is_split = true;
}

split_at : Bytes → Option (Bytes × Bytes) → Parts
unfolding split_after
split_at content none = record { bootstrap = []; rest = content; is_split = false }
split_at content (some (pre, after)) = split_after content pre (find blank after)

-- `splitBootstrap`.
unfoldable pub split_bootstrap : Bytes → Bytes → Parts
unfolding split_at find
split_bootstrap header content =
    if length header == 0
    then record { bootstrap = []; rest = content; is_split = false }
    else split_at content (find header content)

-- `EncryptContent`.
unfoldable pub encrypt_content : (Bytes → Result Bytes) → Bytes → Bytes → Result Bytes
unfolding split_bootstrap
encrypt_content encrypt header content =
    let parts = split_bootstrap header content in
    if parts.is_split && not (length header == 0)
    then encrypt parts.rest >>= (λ sealed. ok (parts.bootstrap ++ (blank ++ sealed)))
    else encrypt content

-- `reassemble`.
abbrev pub reassemble : Bytes → Bytes → Bytes
reassemble [] rest = rest
reassemble (c ∷ b) rest = (c ∷ b) ++ (blank ++ rest)

payload_after : Bytes → Bytes → Option (Bytes × Bytes) → Bytes × Bytes
payload_after payload pre none = ([], payload)
payload_after payload pre (some (b, tail)) = (pre ++ b, drop 2 tail)

payload_at : Bytes → Option (Bytes × Bytes) → Bytes × Bytes
unfolding payload_after
payload_at payload none = ([], payload)
payload_at payload (some (pre, after)) = payload_after payload pre (find blank after)

-- `decryptPayload`.
unfoldable pub decrypt_content : (Bytes → Result Bytes) → Bytes → Bytes → Result Bytes
unfolding payload_at find
decrypt_content decrypt header payload =
    let parts =
      if length header == 0 then ([], payload) else payload_at payload (find header payload) in
    decrypt parts.1 >>= (λ plain. ok (reassemble parts.0 plain))
