-- ===== src/EmailAuth.antt =====
-- src/modules/email/email.authorization.ts: which service may send an email. The decoding of the
-- token's parts, the hash of the body, the key servers and the check of a signature are parameters.
pub mod Authorized
use crm_media.Base.{
  ℕ, ◌+◌, ◌-◌, Bool, true, false, not, ◌&&◌, ◌||◌, List, [], ◌∷◌, ◌++◌, Option, none, some, Text,
  codes, text_eq, starts_with, drop, all, leb, ltb, ◌==◌, if◌then◌else◌,
}
use crm_media.Commands.{split_dots}

-- The claims by the types that the check asks for; `none` is a claim that is absent or of another
-- type.
pub record Header : Type 0 where
  pub alg : Option Text
  pub kid : Option Text

pub record EmailClaims : Type 0 where
  pub iss : Option Text
  pub sub : Option Text
  pub aud : Option Text
  pub purpose : Option Text
  pub exp : Option ℕ
  pub iat : Option ℕ
  pub body_hash : Option Text

pub record Gate : Type 0 where
  pub parse_header : Text → Option Header
  pub parse_claims : Text → Option EmailClaims
  pub sha256 : Text → Text
  pub source_of : Text → Option Text
  pub fetch_key : Text → Text → Option Text
  pub check : Text → Text → Text → Bool

-- The issuer, or the status of the error: 401, 403, 503.
pub data Decision : Type 0 where
  allowed : Text → Decision
  unauthorized forbidden unavailable : Decision

unfoldable pub is_base64url : ℕ → Bool
is_base64url c =
    (leb b'A' c && leb c b'Z')
    || (leb b'a' c && leb c b'z')
    || (leb b'0' c && leb c b'9')
    || c == b'_'
    || c == b'-'

unfoldable pub is_part : Text → Bool
is_part [] = false
is_part (c ∷ s) = all is_base64url (c ∷ s)

unfoldable pub three_parts : List Text → Option (Text × Text × Text)
three_parts (h ∷ p ∷ s ∷ []) =
    if is_part h && (is_part p && is_part s) then some (h, p, s) else none
three_parts _ = none

-- `authorization?.match(/^Bearer (…\.…\.…)$/)`, and the split of the token.
unfoldable pub bearer_parts : Option Text → Option (Text × Text × Text)
bearer_parts none = none
bearer_parts (some value) =
    if starts_with (codes "Bearer ") value then three_parts (split_dots (drop 7 value)) else none

abbrev pub equals : Option Text → Text → Bool
equals none value = false
equals (some claim) value = text_eq claim value

-- Both times are numbers, the token has not expired, is not from the future and lives a minute at
-- most; the source subtracts, here the sums are compared.
unfoldable pub is_timely : ℕ → Option ℕ → Option ℕ → Bool
is_timely now none iat = false
is_timely now (some exp) none = false
is_timely now (some exp) (some iat) = ltb now exp && (leb iat (now + 5) && leb exp (iat + 60))

module _ (gate : Gate) (body : Text) (now : ℕ) where
  unfoldable pub is_valid : Text → Header → EmailClaims → Bool
  is_valid iss h c =
      equals h.alg (codes "RS256")
      && (equals c.sub iss
          && (equals c.aud (codes "crm-media:email")
              && (equals c.purpose (codes "email:dispatch")
                  && (is_timely now c.exp c.iat && equals c.body_hash (gate.sha256 body)))))

  unfoldable pub check_key : Text → Text × Text × Text → Option Text → Decision
  check_key iss parts none = unavailable
  check_key iss (head, payload, signature) (some pem) =
      if gate.check pem (head ++ (codes "." ++ payload)) signature
      then allowed iss
      else unauthorized

  unfoldable pub check_source : Text → Text → Text × Text × Text → Option Text → Decision
  check_source iss kid parts none = forbidden
  check_source iss kid parts (some []) = forbidden
  check_source iss kid parts (some (c ∷ source)) =
      check_key iss parts (gate.fetch_key (c ∷ source) kid)

  unfoldable pub check_named :
      Text × Text × Text → Header → EmailClaims → Option Text → Option Text → Decision
  check_named parts h c none kid = unauthorized
  check_named parts h c (some iss) none = unauthorized
  check_named parts h c (some iss) (some kid) =
      if is_valid iss h c then check_source iss kid parts (gate.source_of iss) else unauthorized

  unfoldable pub check_decoded : Text × Text × Text → Option Header → Option EmailClaims → Decision
  check_decoded parts none c = unauthorized
  check_decoded parts (some h) none = unauthorized
  check_decoded parts (some h) (some c) = check_named parts h c c.iss h.kid

  unfoldable pub check_parts : Option (Text × Text × Text) → Decision
  check_parts none = unauthorized
  check_parts (some (head, payload, signature)) =
      check_decoded (head, payload, signature) (gate.parse_header head) (gate.parse_claims payload)

  unfoldable pub authorize_email : Option Text → Decision
  authorize_email authorization = check_parts (bearer_parts authorization)
