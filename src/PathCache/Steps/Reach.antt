-- ===== src/PathCache/Steps/Reach.antt =====
-- Every entry point of src/PathCache.c is a run of its critical sections.
use blorg_fs.Prelude.{
  ℕ, zero, suc, ◌+◌, ◌^◌, ◌≤◌, ◌<◌, sym, subst, Bool, true, false, not, List, [], ◌∷◌, ◌++◌, Option,
  none, some, inl, inr, arith, ◌&&◌, ◌||◌, is_empty, if◌then◌else◌, All, Bool-cases, Option-cases,
  get_elem?, add64, ltb,
}
use blorg_fs.PathCache.Kernel.{Name, Kernel}
use blorg_fs.PathCache.Paths.{buckets, parent}
use blorg_fs.PathCache.Types.{
  Metadata, Ticket, Child, Listing, Descendant, Cache, Snapshot, snapshot, advance_sequence,
  listing_max_bytes,
}
use blorg_fs.PathCache.Insert.{insert, insert_exists, is_insertable, given_meta}
use blorg_fs.PathCache.Invalidate.{
  for_buckets, sweep_bucket, invalidate_under, listing_drop_parent, invalidate, listing_drop_under,
  sweep_listing_bucket, is_listing_under, invalidate_prefix, invalidate_all, follow_feed,
}
use blorg_fs.PathCache.Publish.{Machine, publish_listing, is_publishable, reap_for, reap_dead}
use blorg_fs.PathCache.Publish.Seed.{seed_listing, seed_children, seed_entry, child_metadata}
use blorg_fs.PathCache.Publish.Descendants.{publish_from, descendant_path}
use blorg_fs.PathCache.Steps.{
  Step, inserts, publishes, drops_path, sweeps, drops_listing, sweeps_listings, flushes, switches,
  Run, next, advances,
}

-- A run of some number of advances.
abbrev pub Reaches : Kernel → Cache → Cache → Type 0
Reaches k c c' = (n : ℕ) × Run k n c c'

module _ (k : Kernel) {c₀ : Cache} where
  pub step : {c c' : Cache} → Reaches k c₀ c → Step k c c' → Reaches k c₀ c'
  step (n, r) s = (n, next r s)

  advance : {c : Cache} → Reaches k c₀ c → Reaches k c₀ (advance_sequence c)
  advance (n, r) = (suc n, advances r)

  for_buckets-Reaches :
      (body : ℕ → Cache → Cache)
      → ((b : ℕ) → b < buckets → (c : Cache) → Step k c (body b c))
      → (n : ℕ) (c : Cache) → n ≤ buckets
      → Reaches k c₀ c
      → Reaches k c₀ (for_buckets body n c)
  unfolding for_buckets
  for_buckets-Reaches body h zero c le r = r
  for_buckets-Reaches body h (suc n) c le r =
      step (for_buckets-Reaches body h n c (omega arith) r) (h n le _)

  pub insert-Reaches :
      (now : ℕ) (allocated : Bool) (path : Name) (exists : Bool) (meta : Option Metadata)
      (ticket : Option Ticket) (c : Cache)
      → Reaches k c₀ c
      → Reaches k c₀ (insert k now allocated path exists meta ticket c)
  unfolding insert
  insert-Reaches now allocated path exists meta ticket c r =
      elim (Bool-cases (is_insertable c path (given_meta exists meta) && allocated)) [
        | inl p ↦
            rw p (step r (inserts (snapshot c now) path exists (given_meta exists meta) ticket))
        | inr p ↦ rw p r
      ]

  invalidate_under-Reaches :
      (dir : Name) (keep_dir children_only : Bool) (c : Cache)
      → Reaches k c₀ c
      → Reaches k c₀ (invalidate_under k dir keep_dir children_only c)
  unfolding invalidate_under
  invalidate_under-Reaches dir keep_dir children_only c r =
      for_buckets-Reaches (sweep_bucket k dir keep_dir children_only)
        (λ b h c. sweeps dir keep_dir children_only b h) buckets c (omega arith) r

  listing_drop_parent-Reaches :
      (path : Name) (c : Cache) → Reaches k c₀ c → Reaches k c₀ (listing_drop_parent k path c)
  unfolding listing_drop_parent
  listing_drop_parent-Reaches path c r = elim (Option-cases (parent path)) [
    | inl p ↦ rw (p, listing_drop_parent) r
    | inr (dir, p) ↦ rw (p, listing_drop_parent) (step r (drops_listing dir))
  ]

  listing_drop_under-Reaches :
      (dir : Option Name) (c : Cache) → Reaches k c₀ c → Reaches k c₀ (listing_drop_under k dir c)
  unfolding listing_drop_under
  listing_drop_under-Reaches dir c r =
      for_buckets-Reaches (sweep_listing_bucket (is_listing_under k dir))
        (λ b h c. sweeps_listings (is_listing_under k dir) b h) buckets c (omega arith) r

  pub invalidate-Reaches :
      (path : Name) (c : Cache) → Reaches k c₀ c → Reaches k c₀ (invalidate k path c)
  unfolding invalidate
  invalidate-Reaches path c r = elim (Bool-cases (not c.ready || is_empty path)) [
    | inl p ↦ rw p r
    | inr p ↦ rw p (
        listing_drop_parent-Reaches path _
          (step (step (advance r) (drops_path path)) (drops_listing path)))
  ]

  Reaches-if :
      (b : Bool) {x y : Cache} → Reaches k c₀ x → Reaches k c₀ y → Reaches k c₀ (if b then x else y)
  Reaches-if true rx ry = rx
  Reaches-if false rx ry = ry

  pub Reaches-if-second :
      (b : Bool) (x y : ℕ × Cache)
      → Reaches k c₀ x.1
      → Reaches k c₀ y.1
      → Reaches k c₀ (if b then x else y).1
  Reaches-if-second true x y rx ry = rx
  Reaches-if-second false x y rx ry = ry

  pub invalidate_prefix-Reaches :
      (dir : Name) (c : Cache) → Reaches k c₀ c → Reaches k c₀ (invalidate_prefix k dir c)
  unfolding invalidate_prefix
  invalidate_prefix-Reaches dir c r = Reaches-if (not c.ready || is_empty dir) r (
      listing_drop_parent-Reaches dir _ (
        listing_drop_under-Reaches (some dir) _
          (invalidate_under-Reaches dir false false _ (advance r))))

  reap_for-Reaches :
      (s : Snapshot) (allocated : Bool) (bytes : ℕ) (c : Cache)
      → Reaches k c₀ c
      → Reaches k c₀ (reap_for s allocated bytes c)
  unfolding reap_for reap_dead
  reap_for-Reaches s allocated bytes c r =
      Reaches-if (allocated && ltb listing_max_bytes (add64 c.listing_bytes bytes))
        (for_buckets-Reaches _ (λ b h c. sweeps_listings _ b h) buckets c (omega arith) r) r

  seed_entry-Reaches :
      (now : ℕ) (allocated : Bool) (scratch name : Name) (meta : Metadata) (ticket : Option Ticket)
      (c : Cache)
      → Reaches k c₀ c
      → Reaches k c₀ (seed_entry k now allocated scratch name meta ticket c)
  unfolding seed_entry insert_exists
  seed_entry-Reaches now allocated scratch name meta ticket c r =
      Reaches-if _ r (insert-Reaches now allocated (scratch ++ name) true (some meta) ticket c r)

  pub invalidate_all-Reaches : (c : Cache) → Reaches k c₀ c → Reaches k c₀ (invalidate_all k c)
  unfolding invalidate_all
  invalidate_all-Reaches c r =
      Reaches-if c.ready (listing_drop_under-Reaches none _ (step (advance r) flushes))
        (step (advance r) flushes)

  pub follow_feed-Reaches :
      (live : Bool) (c : Cache) → Reaches k c₀ c → Reaches k c₀ (follow_feed k live c)
  unfolding follow_feed
  follow_feed-Reaches true c r = step (invalidate_all-Reaches c r) (switches true)
  follow_feed-Reaches false c r = step r (switches false)

  pub publish_listing-Reaches :
      (now : ℕ) (allocated : Bool) (dir : Name) (l : Listing) (ticket : Option Ticket) (c : Cache)
      → l.bytes < 2 ^ 63
      → Reaches k c₀ c
      → Reaches k c₀ (publish_listing k now allocated dir l ticket c).1
  unfolding publish_listing
  publish_listing-Reaches now allocated dir l ticket c h r =
      elim (Bool-cases (is_publishable c dir l)) [
        | inl p ↦ rw p (
            step (reap_for-Reaches (snapshot c now) allocated l.bytes c r)
              (publishes (snapshot c now) allocated dir l ticket h))
        | inr p ↦ rw p r
      ]

  seed_children-Reaches :
      (m : Machine) (is_directory : Bool) (scratch : Name) (children : List Child)
      (ticket : Option Ticket) (n : ℕ) (c : Cache)
      → Reaches k c₀ c
      → Reaches k c₀ (seed_children k m is_directory scratch children ticket n c)
  unfolding seed_children
  seed_children-Reaches m is_directory scratch children ticket zero c r = r
  seed_children-Reaches m is_directory scratch children ticket (suc i) c r =
      seed_children-Reaches m is_directory scratch children ticket i _
        (elim (Option-cases (get_elem? children i)) [
          | inl p ↦
              subst
                (λ o. Reaches k c₀ (elim o [
                  | none ↦ c
                  | some child ↦
                      seed_entry k (m.now i) (m.allocated i) scratch child.name
                        (child_metadata is_directory child) ticket c
                ]))
                (sym p) r
          | inr (child, p) ↦
              subst
                (λ o. Reaches k c₀ (elim o [
                  | none ↦ c
                  | some child ↦
                      seed_entry k (m.now i) (m.allocated i) scratch child.name
                        (child_metadata is_directory child) ticket c
                ]))
                (sym p)
                (seed_entry-Reaches (m.now i) (m.allocated i) scratch child.name
                  (child_metadata is_directory child) ticket c r)
        ])

  pub seed_listing-Reaches :
      (m₁ m₂ : Machine) (allocated : Bool) (dir : Name) (l : Option Listing)
      (ticket : Option Ticket) (c : Cache)
      → Reaches k c₀ c
      → Reaches k c₀ (seed_listing k m₁ m₂ allocated dir l ticket c)
  unfolding seed_listing
  seed_listing-Reaches m₁ m₂ allocated dir none ticket c r =
      Reaches-if (not c.ready || is_empty dir) r (invalidate_under-Reaches dir true c.feed_live c r)
  seed_listing-Reaches m₁ m₂ allocated dir (some l) ticket c r =
      let dropped = invalidate_under-Reaches dir true c.feed_live c r in
      Reaches-if (not c.ready || is_empty dir) r (
        Reaches-if _ dropped (
          seed_children-Reaches m₂ false _ _ ticket _ _
            (seed_children-Reaches m₁ true _ _ ticket _ _ dropped)))

  pub publish_from-Reaches :
      (m : Machine) (buffers : ℕ → Bool) (root : Listing) (ds : List Descendant)
      (ticket : Option Ticket) (paths : List Name) (i : ℕ) (left : List Descendant) (c : Cache)
      → All (λ d. d.listing.bytes < 2 ^ 63) left
      → Reaches k c₀ c
      → Reaches k c₀ (publish_from k m buffers root ds ticket paths i left c).1
  unfolding publish_from
  publish_from-Reaches m buffers root ds ticket paths i [] c h r = r
  publish_from-Reaches m buffers root ds ticket paths i (d ∷ left) c h r =
      publish_from-Reaches m buffers root ds ticket
        (paths ++ descendant_path (buffers i) root ds paths i d ∷ []) (i + 1) left _ h.1
        (Reaches-if _ r
          (publish_listing-Reaches (m.now i) (m.allocated i) _ d.listing ticket c h.0 r))
