-- ===== src/Email/Crypto.antt =====
-- src/modules/email/email.crypto.ts: the layout of an encrypted email, 12 bytes of the initialization
-- vector, 16 of the tag, and the data. AES-GCM, JSON and Base64 are parameters.
pub mod RoundTrip
use crm_media.Base.{List, [], ◌∷◌, ◌++◌, Option, none, some, Text, take, drop}
use crm_media.FileValidation.Bytes.{Bytes, ◌>>=◌}
use crm_media.Dlq.{truthy}
use crm_media.Email.Dispatch.{RawEmailPayload}

-- `seal` gives the data and the tag; `unseal` takes the key, the vector, the tag and the data, and
-- is `none` if it throws, as is `parse`.
pub record Crypto : Type 0 where
  pub email_queue_encryption_key : Option Text
  pub from_base64 : Text → Bytes
  pub to_base64 : Bytes → Text
  pub stringify : RawEmailPayload → Bytes
  pub parse : Bytes → Option RawEmailPayload
  pub seal : Bytes → Bytes → Bytes → Bytes × Bytes
  pub unseal : Bytes → Bytes → Bytes → Bytes → Option Bytes

module _ (crypto : Crypto) where
  -- A key that is missing or empty throws.
  unfoldable pub key : Option Bytes
  key = elim (truthy crypto.email_queue_encryption_key) [
    | none ↦ none
    | some k ↦ some (crypto.from_base64 k)
  ]

  unfoldable pub pack : Bytes → Bytes × Bytes → Text
  pack iv (data_bytes, tag) = crypto.to_base64 (iv ++ (tag ++ data_bytes))

  -- `iv` is what `randomBytes(12)` gives.
  unfoldable pub encrypt_email : Bytes → RawEmailPayload → Option Text
  encrypt_email iv payload = do
    k ← key
    some (pack iv (crypto.seal k iv (crypto.stringify payload)))

  unfoldable pub decrypt_with : Bytes → Bytes → Option RawEmailPayload
  decrypt_with k bytes = do
    plain ← crypto.unseal k (take 12 bytes) (take 16 (drop 12 bytes)) (drop 28 bytes)
    crypto.parse plain

  unfoldable pub decrypt_email : Text → Option RawEmailPayload
  decrypt_email ciphertext = do k ← key; decrypt_with k (crypto.from_base64 ciphertext)
