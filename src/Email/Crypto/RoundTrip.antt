-- ===== src/Email/Crypto/RoundTrip.antt =====
-- What was encrypted is decrypted to itself.
use crm_media.Base.{
  ℕ, zero, suc, ◌≡◌, refl, sym, ap, List, [], ◌∷◌, ◌++◌, none, some, Text, take, drop, length,
  length-append, arith, ◌⊎◌, inl, inr, Option-cases,
}
use crm_media.FileValidation.Bytes.{Bytes}
use crm_media.Email.Dispatch.{RawEmailPayload}
use crm_media.Email.Crypto.{Crypto, key, pack, encrypt_email, decrypt_with, decrypt_email}

-- What is assumed of the libraries: Base64 and JSON give back what was written, a tag has 16 bytes,
-- and data is opened with the key, the vector and the tag that it was sealed with.
pub record IsSound (crypto : Crypto) : Type 0 where
  pub base64 : (b : Bytes) → crypto.from_base64 (crypto.to_base64 b) ≡ b
  pub json : (p : RawEmailPayload) → crypto.parse (crypto.stringify p) ≡ some p
  pub tag : (k iv b : Bytes) → length (crypto.seal k iv b).1 ≡ 16
  pub opens :
      (k iv b : Bytes) → crypto.unseal k iv (crypto.seal k iv b).1 (crypto.seal k iv b).0 ≡ some b

take-length : {A : Type 0} (n : ℕ) (xs ys : List A) → length xs ≡ n → take n (xs ++ ys) ≡ xs
take-length zero [] ys e = refl
take-length zero (x ∷ xs) ys e = absurd (omega arith)
take-length (suc n) [] ys e = absurd (omega arith)
take-length (suc n) (x ∷ xs) ys e = ap (λ l. x ∷ l) (take-length n xs ys (omega arith))

drop-length : {A : Type 0} (n : ℕ) (xs ys : List A) → length xs ≡ n → drop n (xs ++ ys) ≡ ys
drop-length zero [] ys e = refl
drop-length zero (x ∷ xs) ys e = absurd (omega arith)
drop-length (suc n) [] ys e = absurd (omega arith)
drop-length (suc n) (x ∷ xs) ys e = drop-length n xs ys (omega arith)

append_assoc : {A : Type 0} (xs ys zs : List A) → (xs ++ ys) ++ zs ≡ xs ++ (ys ++ zs)
append_assoc [] ys zs = refl
append_assoc (x ∷ xs) ys zs = ap (λ l. x ∷ l) (append_assoc xs ys zs)

module _ (crypto : Crypto) (sound : IsSound crypto) (iv : Bytes) (twelve : length iv ≡ 12)
    (payload : RawEmailPayload) where
  decrypt_with-pack :
      (k : Bytes)
      → decrypt_with crypto k
          (crypto.from_base64 (pack crypto iv (crypto.seal k iv (crypto.stringify payload))))
        ≡ some payload
  unfolding decrypt_with pack
  decrypt_with-pack k =
      let d = (crypto.seal k iv (crypto.stringify payload)).0 in
      let tag = (crypto.seal k iv (crypto.stringify payload)).1 in
      let sixteen = sound.tag k iv (crypto.stringify payload) in
      rw
        (
          sound.base64 (iv ++ (tag ++ d)),
          take-length 12 iv (tag ++ d) twelve,
          drop-length 12 iv (tag ++ d) twelve,
          take-length 16 tag d sixteen,
          sym (append_assoc iv tag d),
          drop-length 28 (iv ++ tag) d (omega (arith, length-append iv tag, twelve, sixteen)),
          sound.opens k iv (crypto.stringify payload),
        )
        (sound.json payload)

  -- With sound libraries and a vector of 12 bytes, an email that was encrypted is decrypted to
  -- itself, whatever the key is; nothing is encrypted only if there is no key.
  pub decrypt_email-encrypt_email :
      ((encrypt_email crypto iv payload ≡ none) × (key crypto ≡ none))
      ⊎ ((c : Text) × (encrypt_email crypto iv payload ≡ some c)
          × (decrypt_email crypto c ≡ some payload))
  unfolding encrypt_email decrypt_email
  decrypt_email-encrypt_email = elim (Option-cases (key crypto)) [
    | inl missing ↦ inl (rw missing refl, missing)
    | inr (k, found) ↦ inr (
      pack crypto iv (crypto.seal k iv (crypto.stringify payload)),
      rw found refl,
      rw found (decrypt_with-pack k),
    )
  ]
