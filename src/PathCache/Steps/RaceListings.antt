-- ===== src/PathCache/Steps/RaceListings.antt =====
-- The ticket protocol for listings: no listing fetched before an invalidation survives it.
use blorg_fs.Prelude.{
  ℕ, ◌+◌, ◌%◌, ◌^◌, ◌≤◌, ◌<◌, ◌≡◌, ◌≢◌, refl, sym, ◌∙◌, subst, Bool, true, false, not, List, [],
  ◌∷◌, some, inl, inr, arith, ◌&&◌, is_empty, All, All-map, All-every, update_all, update_self,
  Bool-cases, ℕ_discrete,
}
use blorg_fs.PathCache.Kernel.{Name, Kernel, IsDocumented}
use blorg_fs.PathCache.Kernel.Laws.{equal_false}
use blorg_fs.PathCache.Paths.{bucket_of, is_under}
use blorg_fs.PathCache.Types.{
  ListingEntry, Bucket, Cache, Charges, take_ticket, advance_sequence, ticket_honoured, uncharge,
  snapshot,
}
use blorg_fs.PathCache.Insert.{insert_locked, put_bucket}
use blorg_fs.PathCache.Lookup.{lookup_listing}
use blorg_fs.PathCache.Invalidate.{
  listing_drop, sweep_listing_bucket, put_listings, drop_listing, sweep_listings, is_listing_under,
  charges_of, invalidate_locked, sweep_bucket,
}
use blorg_fs.PathCache.Publish.{publish_locked, new_listing_entry}
use blorg_fs.PathCache.Valid.{IsValid, Distinct, listing_paths_of}
use blorg_fs.PathCache.Valid.Put.{same_IsValid}
use blorg_fs.PathCache.Steps.{
  Step, inserts, publishes, looks_up, drops_path, sweeps, drops_listing, sweeps_listings, flushes,
  switches, Run, here, next, advances,
}
use blorg_fs.PathCache.Steps.Valid.{Run-IsValid}
use blorg_fs.PathCache.Steps.Kept.{honoured-sequence, Run-sequence}
use blorg_fs.PathCache.Steps.KeptListings.{
  drop_listing-All, sweep_listings-All, publish_walk-All, walk_listings-All,
}
use blorg_fs.PathCache.Steps.Race.{not_back}

module _ {κ} (P : ℕ → ListingEntry → Type κ)
    (claim : (i : ℕ) (e : ListingEntry) (claimed : Bool)
      → P i e
      → P i (record e { refresh_claimed = claimed })) where
  -- A section puts nothing into a listing bucket but a listing of the current sequence.
  Step-All :
      (k : Kernel) {c c' : Cache}
      → Step k c c'
      → ((e : ListingEntry) → e.sequence ≡ c.sequence → (b : ℕ) → P b e)
      → ((b : ℕ) → All (P b) (c.listing_buckets b).list)
      → (b : ℕ) → All (P b) (c'.listing_buckets b).list
  unfolding insert_locked invalidate_locked sweep_bucket put_bucket publish_locked lookup_listing
      listing_drop sweep_listing_bucket put_listings new_listing_entry
  Step-All k (inserts {c = c} s path exists m ticket) h a b =
      elim (Bool-cases (ticket_honoured ticket c)) [ inl p ↦ rw p (a b) | inr p ↦ rw p (a b) ]
  Step-All k (publishes {c = c} s allocated dir l ticket _) h a b =
      elim (Bool-cases (ticket_honoured ticket c)) [
        | inl p ↦ rw p (
            update_all (λ i (x : Bucket ListingEntry). All (P i) x.list) c.listing_buckets
              (bucket_of k dir) _
              (publish_walk-All (P (bucket_of k dir)) k s allocated
                (new_listing_entry s dir l ticket c) _ _
                (h (new_listing_entry s dir l ticket c) (honoured-sequence ticket c p) _)
                (a (bucket_of k dir)))
              a b)
        | inr p ↦ rw p (a b)
      ]
  Step-All k (looks_up {c = c} now dir allow_stale ticket) h a b =
      elim (Bool-cases (c.ready && not (is_empty dir))) [
        | inl p ↦ rw p (
            update_all (λ i (x : Bucket ListingEntry). All (P i) x.list) c.listing_buckets
              (bucket_of k dir) _
              (walk_listings-All (P (bucket_of k dir)) k (snapshot c now) dir allow_stale ticket
                (claim (bucket_of k dir)) _ (a (bucket_of k dir)))
              a b)
        | inr p ↦ rw p (a b)
      ]
  Step-All k (drops_path path) h a b = a b
  Step-All k (sweeps dir keep_dir children_only b₀ _) h a b = a b
  Step-All k (drops_listing {c = c} dir) h a b =
      update_all (λ i (x : Bucket ListingEntry). All (P i) x.list) c.listing_buckets
        (bucket_of k dir) _ (drop_listing-All (P (bucket_of k dir)) k dir _ _ (a (bucket_of k dir)))
        a b
  Step-All k (sweeps_listings {c = c} test b₀ _) h a b =
      update_all (λ i (x : Bucket ListingEntry). All (P i) x.list) c.listing_buckets b₀ _
        (sweep_listings-All (P b₀) test _ _ (a b₀)) a b
  Step-All k flushes h a b = a b
  Step-All k (switches live) h a b = a b

  Run-All :
      (k : Kernel) {n : ℕ} {c c' : Cache}
      → Run k n c c'
      → ((m : ℕ) (e : ListingEntry)
          → m ≤ n
          → e.sequence ≡ (c.sequence + m) % 2 ^ 64
          → (b : ℕ) → P b e)
      → c.sequence < 2 ^ 64
      → ((b : ℕ) → All (P b) (c.listing_buckets b).list)
      → (b : ℕ) → All (P b) (c'.listing_buckets b).list
  unfolding advance_sequence
  Run-All k here h lt a = a
  Run-All k (next {n = n} r s) h lt a =
      Step-All k s (λ e q. h n e (omega arith) (q ∙ Run-sequence k r lt)) (Run-All k r h lt a)
  Run-All k (advances {n = n} r) h lt a = Run-All k r (λ m e q. h m e (omega arith)) lt a

stays_out :
    (k : Kernel) (test : Name → Bool) (b s : ℕ) {n : ℕ} {c c' : Cache}
    → Run k n c c'
    → All (λ e. test e.path ≡ false) (c.listing_buckets b).list
    → c.sequence < 2 ^ 64
    → ((m : ℕ) → m ≤ n → (c.sequence + m) % 2 ^ 64 ≢ s)
    → All (λ e. test e.path ≡ true → e.sequence ≢ s) (c'.listing_buckets b).list
stays_out k test b s {n} {c} {c'} r free lt h =
    All-map (P b) (λ e. test e.path ≡ true → e.sequence ≢ s) (c'.listing_buckets b).list
      (λ e q. q refl)
      (Run-All P (λ i e claimed p. p) k r (λ m e le q i _ _ eq. h m le (cc)) lt start b)
  where
    P : ℕ → ListingEntry → Type 0
    P i e = i ≡ b → test e.path ≡ true → e.sequence ≢ s

    start : (i : ℕ) → All (P i) (c.listing_buckets i).list
    start i = elim (ℕ_discrete i b) [
      | yes e ↦
          subst (λ j. All (P i) (c.listing_buckets j).list) (sym e)
            (All-map (λ x. test x.path ≡ false) (P i) (c.listing_buckets b).list
              (λ x q _ p. absurd (cc)) free)
      | no ne ↦ All-every (P i) (λ x e. absurd (ne e)) (c.listing_buckets i).list
    ]

All-paths :
    (P : Name → Type 0) (es : List ListingEntry)
    → All P (listing_paths_of es)
    → All (λ e. P e.path) es
All-paths P [] a = tt
All-paths P (e ∷ es) a = (a.0, All-paths P es a.1)

drop_listing-ne :
    (k : Kernel)
    → IsDocumented k
    → (dir : Name) (es : List ListingEntry) (n : Charges) → Distinct k (listing_paths_of es)
    → All (λ e. k.equal e.path dir ≡ false) (drop_listing k dir es n).0
unfolding drop_listing
drop_listing-ne k d dir [] n u = tt
drop_listing-ne k d dir (e ∷ es) n u = elim (Bool-cases (k.equal e.path dir)) [
  | inl p ↦ rw p (
      All-map (λ x. k.equal e.path x.path ≡ false) (λ x. k.equal x.path dir ≡ false) es
        (λ x q. equal_false k d e.path x.path dir q p)
        (All-paths (λ q. k.equal e.path q ≡ false) es u.0))
  | inr p ↦ rw p (p, drop_listing-ne k d dir es n u.1)
]

sweep_listings-ne :
    (test : ListingEntry → Bool) (es : List ListingEntry) (n : Charges)
    → All (λ e. test e ≡ false) (sweep_listings test es n).0
unfolding sweep_listings
sweep_listings-ne test [] n = tt
sweep_listings-ne test (e ∷ es) n = elim (Bool-cases (test e)) [
  | inl p ↦ rw p (sweep_listings-ne test es (uncharge n e))
  | inr p ↦ rw p (p, sweep_listings-ne test es n)
]

-- ListingCacheDrop drops a directory's listing under its bucket's lock, after the invalidation that
-- calls it advanced the sequence. However the critical sections of other threads interleave before
-- the advance, between the two and afterwards, the bucket then holds no listing of the directory
-- with the sequence of a ticket taken before the advance, if fewer than 2 ^ 64 invalidations run in
-- all.
pub invalidated_listing_stays_out :
    (k : Kernel) (dir : Name) (now : ℕ) {n₁ n₂ n₃ : ℕ} {c₀ c₁ c₂ c₃ : Cache}
    → IsDocumented k
    → IsValid k c₀
    → c₀.sequence < 2 ^ 64
    → Run k n₁ c₀ c₁
    → Run k n₂ (advance_sequence c₁) c₂
    → Run k n₃ (listing_drop k dir c₂) c₃
    → n₁ + n₂ + n₃ + 1 < 2 ^ 64
    → All
        (λ e. k.equal e.path dir ≡ true → e.sequence ≢ (take_ticket c₀ now).sequence)
        (c₃.listing_buckets (bucket_of k dir)).list
unfolding listing_drop put_listings take_ticket advance_sequence
invalidated_listing_stays_out k dir now {n₁} {n₂} {n₃} {c₀} {c₁} {c₂} d v lt r₁ r₂ r₃ few =
    let back = not_back k {n₃ = n₃} lt r₁ r₂ few in
    let valid = Run-IsValid k d r₂ (same_IsValid (Run-IsValid k d r₁ v)) in
    stays_out k (λ p. k.equal p dir) b c₀.sequence r₃
      (subst (λ (x : Bucket ListingEntry). All (λ e. k.equal e.path dir ≡ false) x.list)
        (sym (update_self c₂.listing_buckets b _))
        (drop_listing-ne k d dir (c₂.listing_buckets b).list (charges_of c₂ b)
          (valid.listing_home b).distinct))
      back.0 back.1
  where
    b : ℕ
    b = bucket_of k dir

-- ListingCacheDropUnder sweeps the listings of a subtree out of the buckets, one lock at a time,
-- after the invalidation that calls it advanced the sequence. However the critical sections of other
-- threads interleave before the advance, before the sweep of a bucket and afterwards, the bucket
-- then holds no listing at or beneath the directory with the sequence of a ticket taken before the
-- advance, if fewer than 2 ^ 64 invalidations run in all.
pub invalidated_subtree_listings_stay_out :
    (k : Kernel) (dir : Name) (b now : ℕ) {n₁ n₂ n₃ : ℕ} {c₀ c₁ c₂ c₃ : Cache}
    → c₀.sequence < 2 ^ 64
    → Run k n₁ c₀ c₁
    → Run k n₂ (advance_sequence c₁) c₂
    → Run k n₃ (sweep_listing_bucket (is_listing_under k (some dir)) b c₂) c₃
    → n₁ + n₂ + n₃ + 1 < 2 ^ 64
    → All
        (λ e. is_under k dir e.path ≡ true → e.sequence ≢ (take_ticket c₀ now).sequence)
        (c₃.listing_buckets b).list
unfolding sweep_listing_bucket put_listings take_ticket advance_sequence is_listing_under
invalidated_subtree_listings_stay_out k dir b now {n₁} {n₂} {n₃} {c₀} {c₁} {c₂} lt r₁ r₂ r₃ few =
    let back = not_back k {n₃ = n₃} lt r₁ r₂ few in
    stays_out k (is_under k dir) b c₀.sequence r₃
      (subst (λ (x : Bucket ListingEntry). All (λ e. is_under k dir e.path ≡ false) x.list)
        (sym (update_self c₂.listing_buckets b _))
        (sweep_listings-ne (is_listing_under k (some dir)) (c₂.listing_buckets b).list
          (charges_of c₂ b)))
      back.0 back.1
