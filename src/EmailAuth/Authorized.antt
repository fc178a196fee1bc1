-- ===== src/EmailAuth/Authorized.antt =====
-- What an authorized request has shown.
use crm_media.Base.{
  ℕ, ◌+◌, ◌≤◌, ◌<◌, ◌≡◌, refl, true, ◌++◌, ◌∷◌, [], Option, none, some, Text, codes, eq_of_text_eq,
  ap, sym, ◌∙◌, arith, Bool-cases, inl, inr,
}
use crm_media.EmailAuth.{
  Header, EmailClaims, Gate, allowed, bearer_parts, equals, is_timely, is_valid, check_key,
  check_source, check_named, check_decoded, check_parts, authorize_email,
}

module _ (gate : Gate) (body : Text) (now : ℕ) (authorization : Option Text) (issuer : Text) where
  -- The token is from the issuer, for the sending of this body, lives a minute at most, and its
  -- signature holds under a key of the source that is configured for the issuer.
  pub record IsAuthorized : Type 0 where
    pub head : Text
    pub payload : Text
    pub signature : Text
    pub claims : EmailClaims
    pub source : Text
    pub kid : Text
    pub pem : Text
    pub expires : ℕ
    pub issued : ℕ
    pub bearer : bearer_parts authorization ≡ some (head, payload, signature)
    pub decoded : gate.parse_claims payload ≡ some claims
    pub from_issuer : (claims.iss ≡ some issuer) × (claims.sub ≡ some issuer)
    pub to_email : claims.aud ≡ some (codes "crm-media:email")
    pub to_send : claims.purpose ≡ some (codes "email:dispatch")
    pub of_body : claims.body_hash ≡ some (gate.sha256 body)
    pub times : (claims.exp ≡ some expires) × (claims.iat ≡ some issued)
    pub alive : now < expires
    pub started : issued ≤ now + 5
    pub short : expires ≤ issued + 60
    pub configured : gate.source_of issuer ≡ some source
    pub fetched : gate.fetch_key source kid ≡ some pem
    pub checked : gate.check pem (head ++ (codes "." ++ payload)) signature ≡ true

equals-eq : (claim : Option Text) (value : Text) → equals claim value ≡ true → claim ≡ some value
equals-eq none value h = cc
equals-eq (some c) value h = ap some (eq_of_text_eq c value h)

timely-bounds :
    (now : ℕ) (exp iat : Option ℕ)
    → is_timely now exp iat ≡ true
    → (e : ℕ) × (i : ℕ) × ((exp ≡ some e) × (iat ≡ some i))
      × ((now < e) × (i ≤ now + 5) × (e ≤ i + 60))
unfolding is_timely
timely-bounds now none iat h = absurd (cc)
timely-bounds now (some e) none h = absurd (cc)
timely-bounds now (some e) (some i) h =
    (e, i, (refl, refl), (ground arith, ground arith, ground arith))

module _ (gate : Gate) (body : Text) (now : ℕ) (issuer : Text) where
  check_key-allowed :
      (iss h p s : Text) (o : Option Text)
      → check_key gate body now iss (h, p, s) o ≡ allowed issuer
      → (pem : Text) × (o ≡ some pem)
        × (iss ≡ issuer)
        × (gate.check pem (h ++ (codes "." ++ p)) s ≡ true)
  unfolding check_key
  check_key-allowed iss h p s none e = absurd (cc)
  check_key-allowed iss h p s (some pem) e =
      elim (Bool-cases (gate.check pem (h ++ (codes "." ++ p)) s)) [
        | inl good ↦ (pem, refl, ground arith, good)
        | inr bad ↦ absurd (ground arith)
      ]

  check_source-allowed :
      (iss kid : Text) (parts : Text × Text × Text) (o : Option Text)
      → check_source gate body now iss kid parts o ≡ allowed issuer
      → (source : Text) × (o ≡ some source)
        × (check_key gate body now iss parts (gate.fetch_key source kid) ≡ allowed issuer)
  unfolding check_source
  check_source-allowed iss kid parts none e = absurd (cc)
  check_source-allowed iss kid parts (some []) e = absurd (cc)
  check_source-allowed iss kid parts (some (c ∷ source)) e = (c ∷ source, refl, e)

  check_named-allowed :
      (authorization : Option Text) (h p s : Text) (header : Header) (c : EmailClaims)
      (iss kid : Option Text)
      → bearer_parts authorization ≡ some (h, p, s)
      → gate.parse_claims p ≡ some c
      → c.iss ≡ iss
      → check_named gate body now (h, p, s) header c iss kid ≡ allowed issuer
      → IsAuthorized gate body now authorization issuer
  unfolding check_named is_valid
  check_named-allowed authorization h p s header c none kid bearer decoded named e = absurd (cc)
  check_named-allowed authorization h p s header c (some iss) none bearer decoded named e =
      absurd (cc)
  check_named-allowed authorization h p s header c (some iss) (some kid) bearer decoded named e =
      let valid : is_valid gate body now iss header c ≡ true = ground arith in
      let next : check_source gate body now iss kid (h, p, s) (gate.source_of iss)
          ≡ allowed issuer =
        ground arith in
      let (source, configured, e1) =
        check_source-allowed iss kid (h, p, s) (gate.source_of iss) next in
      let (pem, fetched, same, checked) =
        check_key-allowed iss h p s (gate.fetch_key source kid) e1 in
      let (expires, issued, times, bounds) =
        timely-bounds now c.exp c.iat (ground (arith, valid)) in
      record {
        head = h;
        payload = p;
        signature = s;
        claims = c;
        source = source;
        kid = kid;
        pem = pem;
        expires = expires;
        issued = issued;
        bearer = bearer;
        decoded = decoded;
        from_issuer =
            (named ∙ ap some same, equals-eq c.sub iss (ground (arith, valid)) ∙ ap some same);
        to_email = equals-eq c.aud _ (ground (arith, valid));
        to_send = equals-eq c.purpose _ (ground (arith, valid));
        of_body = equals-eq c.body_hash _ (ground (arith, valid));
        times = times;
        alive = bounds.0;
        started = bounds.1;
        short = bounds.2;
        configured = sym (ap gate.source_of same) ∙ configured;
        fetched = fetched;
        checked = checked;
      }

  check_decoded-allowed :
      (authorization : Option Text) (h p s : Text) (header : Option Header) (c : Option EmailClaims)
      → bearer_parts authorization ≡ some (h, p, s)
      → gate.parse_claims p ≡ c
      → check_decoded gate body now (h, p, s) header c ≡ allowed issuer
      → IsAuthorized gate body now authorization issuer
  unfolding check_decoded
  check_decoded-allowed authorization h p s none c bearer decoded e = absurd (cc)
  check_decoded-allowed authorization h p s (some header) none bearer decoded e = absurd (cc)
  check_decoded-allowed authorization h p s (some header) (some c) bearer decoded e =
      check_named-allowed authorization h p s header c c.iss header.kid bearer decoded refl e

  check_parts-allowed :
      (authorization : Option Text) (parts : Option (Text × Text × Text))
      → bearer_parts authorization ≡ parts
      → check_parts gate body now parts ≡ allowed issuer
      → IsAuthorized gate body now authorization issuer
  unfolding check_parts
  check_parts-allowed authorization none bearer e = absurd (cc)
  check_parts-allowed authorization (some (h, p, s)) bearer e =
      check_decoded-allowed authorization h p s (gate.parse_header h) (gate.parse_claims p) bearer
        refl e

  -- A request that is authorized for an issuer carries a bearer token of that issuer for sending
  -- this very body, which has not expired, was issued at most five seconds in the future, lives a
  -- minute at most, and whose signature holds under a key of the source configured for the issuer.
  pub authorize_email-IsAuthorized :
      (authorization : Option Text)
      → authorize_email gate body now authorization ≡ allowed issuer
      → IsAuthorized gate body now authorization issuer
  unfolding authorize_email
  authorize_email-IsAuthorized authorization e = check_parts-allowed authorization _ refl e
