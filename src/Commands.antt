-- ===== src/Commands.antt =====
-- src/workers/media-command-signature.ts and src/workers/media-command-processor.ts: the commands of
-- the collaboration service, their service token and what they do. The decoding of the token's
-- JSON, the key server and the cryptographic check are parameters.
pub mod Signed
pub mod Execute
pub mod Worker
pub mod Route
use crm_media.Base.{
  ℕ, Bool, true, false, not, ◌||◌, List, [], ◌∷◌, ◌++◌, Option, none, some, Text, codes, text_eq,
  ltb, ◌==◌, if◌then◌else◌,
}
use crm_media.Media.Upload.{Actor}

pub data Request : Type 0 where
  upload_url_requested metadata_requested : Text → Text → ℕ → Request
  access_requested : Bool → Request
  delete_requested : Option Actor → Request

pub record MediaCommand : Type 0 where
  pub correlation_id : Text
  pub signature : Text
  pub object_key : Text
  pub request : Request

abbrev pub command_type : Request → Text
command_type (upload_url_requested n m s) = codes "file.upload-url-requested"
command_type (metadata_requested n m s) = codes "file.metadata-requested"
command_type (access_requested f) = codes "file.access-requested"
command_type (delete_requested a) = codes "file.delete-requested"

-- The claims of a token; `none` is a claim that is absent or no string, for `exp` also zero.
pub record Claims : Type 0 where
  pub exp : Option ℕ
  pub iss : Option Text
  pub aud : Option Text
  pub purpose : Option Text
  pub correlation_id : Option Text
  pub command_type : Option Text
  pub object_key : Option Text

-- `parse_kid` and `parse_claims` decode a part and parse it, `none` if that throws; so does the key
-- server, and the check of a signature under a key.
pub record Verifier : Type 0 where
  pub issuer : Text
  pub configured_key : Option Text
  pub has_jwks : Bool
  pub jwks_key : Text → Option Text
  pub parse_kid : Text → Option (Option Text)
  pub parse_claims : Text → Option Claims
  pub check : Text → Text → Text → Option Bool

pub data Reason : Type 0 where
  malformed invalid_header missing_kid invalid_payload expired wrong_issuer wrong_audience : Reason
  wrong_purpose wrong_correlation_id wrong_command_type wrong_object_key invalid_signature : Reason

-- The end of the check: it returns, throws an error that is not retried, the status 500 of a missing
-- configuration, or another error.
pub data Verdict : Type 0 where
  accepted : Verdict
  non_retryable : Reason → Verdict
  not_configured failed : Verdict

pub data KeyLookup : Type 0 where
  key_found : Text → KeyLookup
  no_key : Verdict → KeyLookup

-- `token.split(".")`
unfoldable pub split_dots : Text → List Text
split_dots [] = [] ∷ []
split_dots (c ∷ s) =
    let rest = split_dots s in
    if c == b'.'
    then [] ∷ rest
    else elim rest [ [] ↦ (c ∷ []) ∷ [] | part ∷ parts ↦ (c ∷ part) ∷ parts ]

-- The first three parts, if none is missing or empty.
unfoldable pub token_parts : List Text → Option (Text × Text × Text)
token_parts ((h ∷ hs) ∷ (p ∷ ps) ∷ (s ∷ ss) ∷ rest) = some (h ∷ hs, p ∷ ps, s ∷ ss)
token_parts _ = none

-- `claim === value`
unfoldable pub claims : Option Text → Text → Bool
claims none value = false
claims (some claim) value = text_eq claim value

unfoldable pub is_expired : Option ℕ → ℕ → Bool
is_expired none now = false
is_expired (some exp) now = ltb exp now

module _ (v : Verifier) where
  unfoldable pub key_of_reply : Option Text → KeyLookup
  key_of_reply none = no_key failed
  key_of_reply (some pem) = key_found pem

  unfoldable pub key_of_kid : Option (Option Text) → KeyLookup
  key_of_kid none = no_key (non_retryable invalid_header)
  key_of_kid (some none) = no_key (non_retryable missing_kid)
  key_of_kid (some (some [])) = no_key (non_retryable missing_kid)
  key_of_kid (some (some (c ∷ kid))) = key_of_reply (v.jwks_key (c ∷ kid))

  unfoldable pub key_of_header : List Text → KeyLookup
  key_of_header ((h ∷ hs) ∷ rest) = key_of_kid (v.parse_kid (h ∷ hs))
  key_of_header _ = no_key (non_retryable malformed)

  unfoldable pub served_key : Text → KeyLookup
  served_key token = if v.has_jwks then key_of_header (split_dots token) else no_key not_configured

  -- An empty configured key counts as none.
  unfoldable pub public_key : Option Text → Text → KeyLookup
  public_key (some (c ∷ pem)) token = key_found (c ∷ pem)
  public_key _ token = served_key token

  unfoldable pub claims_verdict : MediaCommand → ℕ → Claims → Verdict → Verdict
  claims_verdict command now c next =
      if is_expired c.exp now
      then non_retryable expired
      else if not (claims c.iss v.issuer)
      then non_retryable wrong_issuer
      else if not (claims c.aud (codes "crm-media"))
      then non_retryable wrong_audience
      else if not (claims c.purpose (codes "media.command"))
      then non_retryable wrong_purpose
      else if not (claims c.correlation_id command.correlation_id)
      then non_retryable wrong_correlation_id
      else if not (claims c.command_type (command_type command.request))
      then non_retryable wrong_command_type
      else if not (claims c.object_key command.object_key)
      then non_retryable wrong_object_key
      else next

  unfoldable pub verdict_of_check : Option Bool → Verdict
  verdict_of_check none = failed
  verdict_of_check (some true) = accepted
  verdict_of_check (some false) = non_retryable invalid_signature

  unfoldable pub verify_payload :
      MediaCommand → ℕ → Text → Text × Text × Text → Option Claims → Verdict
  verify_payload command now key parts none = non_retryable invalid_payload
  verify_payload command now key (header, payload, signature) (some c) =
      claims_verdict command now c
        (verdict_of_check (v.check key (header ++ (codes "." ++ payload)) signature))

  unfoldable pub verify_parts : MediaCommand → ℕ → Text → Option (Text × Text × Text) → Verdict
  verify_parts command now key none = non_retryable malformed
  verify_parts command now key (some parts) =
      verify_payload command now key parts (v.parse_claims parts.1)

  unfoldable pub verify_with : MediaCommand → ℕ → KeyLookup → Verdict
  verify_with command now (no_key verdict) = verdict
  verify_with command now (key_found key) =
      verify_parts command now key (token_parts (split_dots command.signature))

  -- `now` in seconds.
  unfoldable pub verify_media_command_signature : MediaCommand → ℕ → Verdict
  verify_media_command_signature command now =
      verify_with command now (public_key v.configured_key command.signature)
