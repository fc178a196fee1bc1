-- ===== src/Commands/Signed.antt =====
-- Which commands pass the check of their token.
use crm_media.Base.{
  ℕ, ◌≡◌, ◌≢◌, refl, sym, ◌∙◌, Bool, true, false, not, List, [], ◌∷◌, ◌++◌, Option, none, some,
  Text, codes, eq_of_text_eq, text_eq_refl, ap, ◌↔◌, arith, if◌then◌else◌,
}
use crm_media.Commands.{
  MediaCommand, command_type, Claims, Verifier, Reason, Verdict, accepted, non_retryable,
  not_configured, KeyLookup, key_found, no_key, split_dots, token_parts, claims, is_expired,
  public_key, key_of_reply, key_of_kid, key_of_header, served_key, claims_verdict, verdict_of_check,
  verify_payload, verify_parts, verify_with, verify_media_command_signature,
}

claims-eq :
    (claim : Option Text) (value : Text) → not (claims claim value) ≡ false → claim ≡ some value
unfolding claims
claims-eq none value h = absurd (cc)
claims-eq (some c) value h = ap some (eq_of_text_eq c value (ground arith))

eq-claims : (claim : Option Text) (value : Text) → claim ≡ some value → claims claim value ≡ true
unfolding claims
eq-claims claim value e = rw e (text_eq_refl value)

-- A guard that lets the check pass.
passed :
    (b : Bool) (r : Reason) (next : Verdict)
    → (if b then non_retryable r else next) ≡ accepted
    → (b ≡ false) × (next ≡ accepted)
passed true r next h = absurd (cc)
passed false r next h = (refl, h)

module _ (v : Verifier) (command : MediaCommand) (now : ℕ) where
  -- The claims speak of this command, from the issuer to this service, and have not expired.
  pub record IsFor (c : Claims) : Type 0 where
    pub fresh : is_expired c.exp now ≡ false
    pub issuer : c.iss ≡ some v.issuer
    pub audience : c.aud ≡ some (codes "crm-media")
    pub purpose : c.purpose ≡ some (codes "media.command")
    pub correlation : c.correlation_id ≡ some command.correlation_id
    pub type : c.command_type ≡ some (command_type command.request)
    pub key : c.object_key ≡ some command.object_key

  -- A token whose claims are for the command and whose signature holds under the key.
  pub record IsSigned : Type 0 where
    pub key : Text
    pub header : Text
    pub payload : Text
    pub signature : Text
    pub claims_of : Claims
    pub known : public_key v v.configured_key command.signature ≡ key_found key
    pub parts : token_parts (split_dots command.signature) ≡ some (header, payload, signature)
    pub decoded : v.parse_claims payload ≡ some claims_of
    pub is_for : IsFor claims_of
    pub checked : v.check key (header ++ (codes "." ++ payload)) signature ≡ some true

  claims_verdict-IsFor :
      (c : Claims) (next : Verdict)
      → claims_verdict v command now c next ≡ accepted
      → IsFor c × (next ≡ accepted)
  unfolding claims_verdict
  claims_verdict-IsFor c next h =
      let (fresh, h1) = passed _ _ _ h in
      let (iss, h2) = passed _ _ _ h1 in
      let (aud, h3) = passed _ _ _ h2 in
      let (purpose, h4) = passed _ _ _ h3 in
      let (correlation, h5) = passed _ _ _ h4 in
      let (type, h6) = passed _ _ _ h5 in
      let (key, h7) = passed _ _ _ h6 in
      (
        record {
          fresh = fresh;
          issuer = claims-eq c.iss _ iss;
          audience = claims-eq c.aud _ aud;
          purpose = claims-eq c.purpose _ purpose;
          correlation = claims-eq c.correlation_id _ correlation;
          type = claims-eq c.command_type _ type;
          key = claims-eq c.object_key _ key;
        },
        h7,
      )

  claims_verdict-next :
      (c : Claims) (next : Verdict) → IsFor c → claims_verdict v command now c next ≡ next
  unfolding claims_verdict
  claims_verdict-next c next h =
      rw
        (
          h.fresh,
          eq-claims c.iss _ h.issuer,
          eq-claims c.aud _ h.audience,
          eq-claims c.purpose _ h.purpose,
          eq-claims c.correlation_id _ h.correlation,
          eq-claims c.command_type _ h.type,
          eq-claims c.object_key _ h.key,
        )
        refl

  verdict_of_check-some : (o : Option Bool) → verdict_of_check v o ≡ accepted → o ≡ some true
  unfolding verdict_of_check
  verdict_of_check-some none h = absurd (cc)
  verdict_of_check-some (some true) h = refl
  verdict_of_check-some (some false) h = absurd (cc)

  verify_payload-IsSigned :
      (key header payload signature : Text) (o : Option Claims)
      → public_key v v.configured_key command.signature ≡ key_found key
      → token_parts (split_dots command.signature) ≡ some (header, payload, signature)
      → v.parse_claims payload ≡ o
      → verify_payload v command now key (header, payload, signature) o ≡ accepted
      → IsSigned
  unfolding verify_payload
  verify_payload-IsSigned key header payload signature none known parts decoded h = absurd (cc)
  verify_payload-IsSigned key header payload signature (some c) known parts decoded h =
      let (is_for, checked) = claims_verdict-IsFor c _ h in
      record {
        key = key;
        header = header;
        payload = payload;
        signature = signature;
        claims_of = c;
        known = known;
        parts = parts;
        decoded = decoded;
        is_for = is_for;
        checked = verdict_of_check-some _ checked;
      }

  verify_parts-IsSigned :
      (key : Text) (o : Option (Text × Text × Text))
      → public_key v v.configured_key command.signature ≡ key_found key
      → token_parts (split_dots command.signature) ≡ o
      → verify_parts v command now key o ≡ accepted
      → IsSigned
  unfolding verify_parts
  verify_parts-IsSigned key none known parts h = absurd (cc)
  verify_parts-IsSigned key (some (header, payload, signature)) known parts h =
      verify_payload-IsSigned key header payload signature (v.parse_claims payload) known parts refl
        h

  verify_with-IsSigned :
      (l : KeyLookup)
      → public_key v v.configured_key command.signature ≡ l
      → l ≢ no_key accepted
      → verify_with v command now l ≡ accepted
      → IsSigned
  unfolding verify_with
  verify_with-IsSigned (key_found key) known ne h = verify_parts-IsSigned key _ known refl h
  verify_with-IsSigned (no_key verdict) known ne h = absurd (ne (ap no_key h))

  key_of_kid-ne : (o : Option (Option Text)) → key_of_kid v o ≢ no_key accepted
  unfolding key_of_kid key_of_reply
  key_of_kid-ne none e = cc
  key_of_kid-ne (some none) e = cc
  key_of_kid-ne (some (some [])) e = cc
  key_of_kid-ne (some (some (c ∷ kid))) e = go (v.jwks_key (c ∷ kid)) e
    where
      go : (o : Option Text) → key_of_reply v o ≢ no_key accepted
      go none h = cc
      go (some pem) h = cc

  key_of_header-ne : (parts : List Text) → key_of_header v parts ≢ no_key accepted
  unfolding key_of_header
  key_of_header-ne [] e = cc
  key_of_header-ne ([] ∷ rest) e = cc
  key_of_header-ne ((h ∷ hs) ∷ rest) e = key_of_kid-ne (v.parse_kid (h ∷ hs)) e

  served_key-ne : (token : Text) → served_key v token ≢ no_key accepted
  unfolding served_key
  served_key-ne token e = go v.has_jwks e
    where
      go :
          (b : Bool)
          → (if b then key_of_header v (split_dots token) else no_key not_configured)
            ≢ no_key accepted
      go true h = key_of_header-ne (split_dots token) h
      go false h = cc

  -- The search for a key never accepts a command by itself.
  public_key-ne :
      (configured : Option Text) (token : Text) → public_key v configured token ≢ no_key accepted
  unfolding public_key
  public_key-ne none token e = served_key-ne token e
  public_key-ne (some []) token e = served_key-ne token e
  public_key-ne (some (c ∷ pem)) token e = cc

  -- The check of a command's token returns if and only if the token is signed: a key is known, the
  -- token has its three parts, the claims decode, have not expired and name the issuer, this
  -- service, the purpose and the command's correlation id, type and object key, and the signature
  -- of the first two parts holds under the key.
  pub verify_media_command_signature-IsSigned :
      (verify_media_command_signature v command now ≡ accepted) ↔ IsSigned
  unfolding verify_media_command_signature verify_with verify_parts verify_payload verdict_of_check
  verify_media_command_signature-IsSigned = (
    λ h. verify_with-IsSigned _ refl (public_key-ne v.configured_key command.signature) h,
    λ s.
        let checked = v.check s.key (s.header ++ (codes "." ++ s.payload)) s.signature in
        rw
          (
            s.known,
            s.parts,
            s.decoded,
            claims_verdict-next s.claims_of (verdict_of_check v checked) s.is_for,
            s.checked,
          )
          refl,
  )

  pub not-IsSigned :
      (verdict : Verdict)
      → verify_media_command_signature v command now ≡ verdict
      → accepted ≢ verdict
      → ¬ IsSigned
  not-IsSigned verdict e ne s = ne (sym (verify_media_command_signature-IsSigned.1 s) ∙ e)
