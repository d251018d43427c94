-- ===== src/SecureMode/Crypt/HeaderTrip.antt =====
-- Headers written and read back, of internal/securemode/crypt.go.
use asscor.Prelude.{
  ℕ, ◌≤◌, ◌≡◌, refl, ap, ◌∷◌, ◌++◌, arith, Bytes, length, length-append, take-append_left,
  drop-append_left,
}
use mathlib.Core.List.{append_assoc}
use asscor.SecureMode.Crypt.{
  CryptError, ok, Header, put_u16, put_u32, read_u16, read_u32, read_field, header_bytes,
  marshal_header, read_fields, magic, version, read_version, parse_header, truncated_salt,
  truncated_envelope, truncated_nonce,
}

read_u16-put_u16 : (n : ℕ) (s : Bytes) → n ≤ 65535 → read_u16 (put_u16 n ++ s) ≡ ok (n, s)
unfolding read_u16 put_u16
read_u16-put_u16 n s h = ap (λ m. ok (m, s)) (omega arith)

pub read_u32-put_u32 : (n : ℕ) (s : Bytes) → n ≤ 4294967295 → read_u32 (put_u32 n ++ s) ≡ ok (n, s)
unfolding read_u32 put_u32
read_u32-put_u32 n s h = ap (λ m. ok (m, s)) (omega arith)

read_field-append :
    (f : Bytes) (e : CryptError) (s : Bytes) → read_field (length f) e (f ++ s) ≡ ok (f, s)
unfolding read_field
read_field-append f e s =
    ground (arith, length-append f s, take-append_left f s, drop-append_left f s)

-- The fields of a header fit into their places.
pub record Fits (h : Header) : Type 0 where
  pub salt_fits : length h.salt ≤ 65535
  pub n_fits : h.argon_n ≤ 4294967295
  pub r_fits : h.argon_r ≤ 4294967295
  pub p_fits : h.argon_p ≤ 4294967295
  pub key_fits : h.key_len ≤ 4294967295
  pub envelope_fits : length h.envelope ≤ 4294967295
  pub nonce_fits : length h.nonce ≤ 65535

abbrev field_bytes : Header → Bytes → Bytes
field_bytes h s =
    put_u16 (length h.salt)
    ++ (h.salt
        ++ (put_u32 h.argon_n
            ++ (put_u32 h.argon_r
                ++ (put_u32 h.argon_p
                    ++ (put_u32 h.key_len
                        ++ (put_u32 (length h.envelope)
                            ++ (h.envelope ++ (put_u16 (length h.nonce) ++ (h.nonce ++ s)))))))))

read_fields-field_bytes :
    (h : Header) (s : Bytes) → Fits h → read_fields (field_bytes h s) ≡ ok (h, s)
unfolding read_fields
read_fields-field_bytes h s f =
    rw
      (
        read_u16-put_u16 (length h.salt) _ f.salt_fits,
        read_field-append h.salt truncated_salt _,
        read_u32-put_u32 h.argon_n _ f.n_fits,
        read_u32-put_u32 h.argon_r _ f.r_fits,
        read_u32-put_u32 h.argon_p _ f.p_fits,
        read_u32-put_u32 h.key_len _ f.key_fits,
        read_u32-put_u32 (length h.envelope) _ f.envelope_fits,
        read_field-append h.envelope truncated_envelope _,
        read_u16-put_u16 (length h.nonce) _ f.nonce_fits,
        read_field-append h.nonce truncated_nonce _,
      )
      refl

header_bytes_lem :
    (h : Header) (s : Bytes) → header_bytes h ++ s ≡ magic ++ (version ∷ field_bytes h s)
unfolding header_bytes put_u16 put_u32
header_bytes_lem h s = rw (append_assoc h.salt _ s, append_assoc h.envelope _ s) refl

-- The two bytes of the salt's length are there.
length_fields : (h : Header) (s : Bytes) → 2 ≤ length (field_bytes h s)
unfolding put_u16
length_fields h s = omega arith

pub parse_header-header_bytes :
    (h : Header) (s : Bytes) → Fits h → parse_header (header_bytes h ++ s) ≡ ok (h, s)
unfolding parse_header read_version
parse_header-header_bytes h s f =
    rw (header_bytes_lem h s) (ground (arith, read_fields-field_bytes h s f, length_fields h s))

-- `parseHeader` reads back the header that `marshalHeader` has written, whatever stands behind it,
-- if its numbers have 32 bits and its salt, envelope and nonce are no longer than their length
-- fields can say; and `marshalHeader` writes every such header.
pub parse_header-marshal_header :
    (h : Header) (s : Bytes)
    → Fits h
    → (head : Bytes) × (marshal_header h ≡ ok head) × (parse_header (head ++ s) ≡ ok (h, s))
unfolding marshal_header
parse_header-marshal_header h s f = (
  header_bytes h,
  ground (arith, f.salt_fits, f.envelope_fits, f.nonce_fits),
  parse_header-header_bytes h s f,
)
