-- ===== src/Breaker/Keys.antt =====
-- The keys of internal/kernel/circuitbreaker.go: service, a slash, method.
use asscor.Prelude.{
  Bytes, cut, cut-append, Lacks, ℕ, ◌≡◌, ap, sym, ◌∙◌, [], ◌∷◌, ◌++◌, Option, none, some,
}

abbrev pub slash : ℕ
slash = b'/'

-- `key`.
unfoldable pub key : Bytes → Bytes → Bytes
key service method = service ++ slash ∷ method

abbrev or_whole : Bytes → Option (Bytes × Bytes) → Bytes × Bytes
or_whole k none = (k, [])
or_whole k (some p) = p

-- The service and the method that `fireBreakerExtension` reads off a key.
unfoldable pub split_key : Bytes → Bytes × Bytes
split_key k = or_whole k (cut slash k)

-- A text with no slash in it.
abbrev pub IsPlain : Bytes → Type 0
IsPlain = Lacks slash

-- From the key of a service without a slash `fireBreakerExtension` reads back that service and
-- method, whatever the method is.
pub split_key-key :
    (service method : Bytes) → IsPlain service → split_key (key service method) ≡ (service, method)
unfolding split_key key
split_key-key service method h =
    ap (or_whole (key service method)) (cut-append slash service method h)

-- Two calls share a record only if they name the same service and method, for services without a
-- slash.
pub key_injective :
    (service method service' method' : Bytes)
    → IsPlain service
    → IsPlain service'
    → key service method ≡ key service' method'
    → (service ≡ service') × (method ≡ method')
key_injective s m s' m' h h' e =
    let p = sym (split_key-key s m h) ∙ ap split_key e ∙ split_key-key s' m' h' in
    (ap (λ (x : Bytes × Bytes). x.0) p, ap (λ (x : Bytes × Bytes). x.1) p)
