-- ===== src/ParPrune/Bound.antt =====
-- What a pruning removes.
use crm_media.Base.{
  ℕ, suc, ◌≤◌, ◌<◌, ◌≡◌, refl, Bool, true, false, ◌&&◌, List, [], ◌∷◌, Option, none, some, ltb, leb,
  arith, All, if◌then◌else◌, Bool-cases, inl, inr, ap,
}
use crm_media.ParPrune.{
  ParSummary, ListParsPage, Removals, has_id, is_expired_par, Pruned, prune_items, prune_pages,
  prune_expired_pars,
}

abbrev pub successes : Removals → ℕ
successes [] = 0
successes ((item, removed) ∷ tried) = if removed then suc (successes tried) else successes tried

module _ (most : ℕ) (remove : Removals → ParSummary → Bool) (now : ℕ) where
  -- The count is that of the removals that succeeded, it stays within the bound, and only expired
  -- requests were tried.
  pub record IsPruned (done : Pruned) : Type 0 where
    pub counted : done.0 ≡ successes done.1
    pub bounded : done.0 ≤ most
    pub expired : All (λ try. is_expired_par now try.0 ≡ true) done.1

  tried-IsPruned :
      (item : ParSummary) (deleted : ℕ) (tried : Removals) (removed : Bool)
      → deleted < most
      → is_expired_par now item ≡ true
      → IsPruned (deleted, tried)
      → IsPruned (if removed then suc deleted else deleted, (item, removed) ∷ tried)
  tried-IsPruned item deleted tried true room old h = record {
    counted = ap suc h.counted;
    bounded = omega (arith, room);
    expired = (old, h.expired);
  }
  tried-IsPruned item deleted tried false room old h = record {
    counted = h.counted;
    bounded = h.bounded;
    expired = (old, h.expired);
  }

  prune_items-IsPruned :
      (items : List ParSummary) (done : Pruned)
      → done.0 < most
      → IsPruned done
      → IsPruned (prune_items most remove now items done)
  unfolding prune_items
  prune_items-IsPruned [] (deleted, tried) room h = h
  prune_items-IsPruned (item ∷ items) (deleted, tried) room h =
      elim (Bool-cases (has_id item && is_expired_par now item)) [
        | inr kept ↦ rw kept (prune_items-IsPruned items (deleted, tried) room h)
        | inl due ↦
            let removed = remove tried item in
            let after : ℕ = if removed then suc deleted else deleted in
            let next : IsPruned (after, (item, removed) ∷ tried) =
              tried-IsPruned item deleted tried removed room (ground (arith, due)) h in
            elim (Bool-cases (leb most after)) [
              | inl full ↦ rw (due, full) next
              | inr more ↦
                  rw (due, more)
                    (prune_items-IsPruned items (after, (item, removed) ∷ tried) (ground arith)
                      next)
            ]
      ]

  -- A listing that throws leaves no result.
  abbrev IfPruned : Option Pruned → Type 0
  IfPruned none = Unit
  IfPruned (some done) = IsPruned done

  prune_pages-IfPruned :
      (pages : List (Option ListParsPage)) (done : Pruned)
      → IsPruned done
      → IfPruned (prune_pages most remove now pages done)
  unfolding prune_pages
  prune_pages-IfPruned [] done h = h
  prune_pages-IfPruned (none ∷ pages) done h = elim (Bool-cases (ltb done.0 most)) [
    | inl more ↦ rw more tt
    | inr full ↦ rw full h
  ]
  prune_pages-IfPruned (some page ∷ pages) done h = elim (Bool-cases (ltb done.0 most)) [
    | inl more ↦
        let pruned = prune_items-IsPruned page.items done (ground arith) h in
        elim (Bool-cases page.has_next) [
          | inl next ↦ rw (more, next) (prune_pages-IfPruned pages _ pruned)
          | inr last ↦ rw (more, last) pruned
        ]
    | inr full ↦ rw full h
  ]

  prune_expired_pars-IfPruned :
      (pages : List (Option ListParsPage)) → IfPruned (prune_expired_pars most remove now pages)
  unfolding prune_expired_pars
  prune_expired_pars-IfPruned pages = elim (Bool-cases (leb most 0)) [
    | inl off ↦ rw off untried
    | inr on ↦ rw on (prune_pages-IfPruned pages (0, []) untried)
  ]
    where
      untried : IsPruned (0, [])
      untried = record { counted = refl; bounded = omega arith; expired = tt }

  -- A pruning that returns, whatever pages were listed and whatever removals succeeded, counts
  -- exactly the removals that succeeded, at most the maximum, and has tried only requests that
  -- had expired by more than the grace.
  pub prune_expired_pars-IsPruned :
      (pages : List (Option ListParsPage)) (done : Pruned)
      → prune_expired_pars most remove now pages ≡ some done
      → IsPruned done
  prune_expired_pars-IsPruned pages done e = rw e at (prune_expired_pars-IfPruned pages)
