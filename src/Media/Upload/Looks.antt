-- ===== src/Media/Upload/Looks.antt =====
-- The metadata that a wait gives are those of the last look at the object.
use crm_media.Base.{ℕ, zero, suc, ◌≡◌, refl, ◌∷◌, Option, none, some, Text, get_or, ltb}
use crm_media.Effects.Defs.{
  Head, object_headed, slept, Trace, Env, M, ◌>>=◌, return, emit, fuel_exhausted,
}
use crm_media.Effects.Triple.{Triple, Anything, anything, bind, branch, weaken, returns, throws}
use crm_media.Storage.{
  ObjectMetadata, octet_stream, get_namespace, head_object, get_object_metadata,
}
use crm_media.Media.Promotion.{try_promote_from_quarantine}
use crm_media.Media.Upload.{
  poll_interval, read_clock, metadata_if, poll_metadata, wait_metadata, await_metadata,
}

-- The metadata, if there are any, are the answer to the last call, a look at the key.
abbrev pub LookedAt : Text → Option ObjectMetadata → Trace → Type 0
LookedAt key none t' = Unit
LookedAt key (some meta) t' =
    (head : Head) × (t : Trace) × (t' ≡ object_headed key (some head) ∷ t)
    × (meta.size_bytes ≡ get_or head.content_length 0)
    × (meta.mime_type ≡ get_or head.content_type octet_stream)

module _ (env : Env) (key : Text) where
  abbrev Looks : M (Option ObjectMetadata) → Type 0
  Looks m = Triple Anything m (LookedAt key) (λ _. Anything)

  get_object_metadata-LookedAt : Looks (get_object_metadata env key)
  unfolding get_object_metadata head_object
  get_object_metadata-LookedAt = bind (anything (get_namespace env)) λ _.
      bind {R = λ head t'. (t : Trace) × (t' ≡ object_headed key head ∷ t)}
        (record { run = λ t p. (t, refl) }) λ head. go head
    where
      go :
          (head : Option Head)
          → Triple
              (λ t'. (t : Trace) × (t' ≡ object_headed key head ∷ t))
              (return (elim head as (λ _. Option ObjectMetadata) [
                | none ↦ none
                | some h ↦ some (record {
                  size_bytes = get_or h.content_length 0;
                  mime_type = get_or h.content_type octet_stream;
                })
              ]))
              (LookedAt key)
              (λ _. Anything)
      go none = returns none λ t p. tt
      go (some h) = returns _ λ t (t0, e). (h, t0, e, refl, refl)

  -- What was found is returned, else the rest decides.
  found_or :
      (o : Option ObjectMetadata) (rest : M (Option ObjectMetadata))
      → Looks rest
      → Triple
          (LookedAt key o)
          (elim o as (λ _. M (Option ObjectMetadata)) [ some m ↦ return (some m) | none ↦ rest ])
          (LookedAt key)
          (λ _. Anything)
  found_or none rest h = weaken h λ t p. tt
  found_or (some m) rest h = returns (some m) λ t p. p

  promoted-LookedAt :
      (rest : M (Option ObjectMetadata))
      → Looks rest
      → Looks (
          try_promote_from_quarantine env key >>= λ promoted.
          metadata_if env promoted key >>= λ again. elim again as (λ _. M (Option ObjectMetadata)) [
            | some m ↦ return (some m)
            | none ↦ rest
          ])
  unfolding metadata_if
  promoted-LookedAt rest h = bind (anything (try_promote_from_quarantine env key)) λ promoted.
      bind (branch promoted get_object_metadata-LookedAt (returns none λ t p. tt))
        λ again. found_or again rest h

  poll_metadata-LookedAt : (fuel deadline : ℕ) → Looks (poll_metadata env fuel deadline key)
  unfolding poll_metadata
  poll_metadata-LookedAt zero deadline =
      bind (anything (emit fuel_exhausted)) λ _. throws _ λ t p. tt
  poll_metadata-LookedAt (suc fuel) deadline = bind (anything (read_clock env)) λ now.
      branch (ltb now deadline)
        (bind (anything (emit (slept poll_interval))) λ _.
          bind get_object_metadata-LookedAt
            λ meta. found_or meta _ (promoted-LookedAt _ (poll_metadata-LookedAt fuel deadline)))
        (returns none λ t p. tt)

  pub await_metadata-LookedAt : Looks (await_metadata env key)
  unfolding await_metadata wait_metadata
  await_metadata-LookedAt = bind get_object_metadata-LookedAt λ meta.
      found_or meta _
        (promoted-LookedAt _ (bind (anything (read_clock env)) λ now. poll_metadata-LookedAt _ _))
