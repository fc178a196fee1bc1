-- ===== src/ParPrune.antt =====
-- src/shared/storage/oci-par-prune.ts: the removal of expired pre-authenticated requests. The pages
-- of the listing are a parameter, and so are the replies to the removals; `none` is a listing that
-- throws.
pub mod Bound
use crm_media.Base.{
  ℕ, suc, ◌+◌, Bool, true, false, not, ◌&&◌, List, [], ◌∷◌, Option, none, some, Text, ltb, leb,
  if◌then◌else◌,
}

pub record ParSummary : Type 0 where
  pub id : Option Text
  pub time_expires : Option ℕ

pub record ListParsPage : Type 0 where
  pub items : List ParSummary
  pub has_next : Bool

-- A removal that was tried, and whether it succeeded; the latest at the head.
abbrev pub Removals : Type 0
Removals = List (ParSummary × Bool)

abbrev pub par_expiry_grace : ℕ
par_expiry_grace = 30000

-- `item.id`, not empty
unfoldable pub has_id : ParSummary → Bool
has_id item = elim item.id [ none ↦ false | some s ↦ elim s [ [] ↦ false | _ ∷ _ ↦ true ] ]

-- Without a time a request does not count as expired.
unfoldable pub is_expired_par : ℕ → ParSummary → Bool
is_expired_par now item = elim item.time_expires [
  | none ↦ false
  | some time ↦ ltb (time + par_expiry_grace) now
]

abbrev pub Pruned : Type 0
Pruned = ℕ × Removals

-- `most` is `env.OCI_PAR_PRUNE_MAX`.
module _ (most : ℕ) (remove : Removals → ParSummary → Bool) (now : ℕ) where
  unfoldable pub prune_items : List ParSummary → Pruned → Pruned
  prune_items [] (deleted, tried) = (deleted, tried)
  prune_items (item ∷ items) (deleted, tried) =
      let removed = remove tried item in
      let after = if removed then suc deleted else deleted in
      let skipped = prune_items items (deleted, tried) in
      let rest = prune_items items (after, (item, removed) ∷ tried) in
      if has_id item && is_expired_par now item
      then (if leb most after then (after, (item, removed) ∷ tried) else rest)
      else skipped

  unfoldable pub prune_pages : List (Option ListParsPage) → Pruned → Option Pruned
  prune_pages [] done = some done
  prune_pages (none ∷ pages) done = if ltb done.0 most then none else some done
  prune_pages (some page ∷ pages) done =
      let pruned = prune_items page.items done in
      let rest = prune_pages pages pruned in
      if ltb done.0 most then (if page.has_next then rest else some pruned) else some done

  unfoldable pub prune_expired_pars : List (Option ListParsPage) → Option Pruned
  prune_expired_pars pages = if leb most 0 then some (0, []) else prune_pages pages (0, [])
