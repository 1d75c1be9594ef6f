-- ===== src/PathCache/Lookup/Refresh.antt =====
-- The one background refresh that a stale listing is owed.
use blorg_fs.Prelude.{
  ℕ, ◌≡◌, refl, Bool, true, false, ◌&&◌, ◌||◌, not, List, [], ◌∷◌, Option, inl, inr, arith,
  is_empty, update_self, leb, Bool-cases,
}
use blorg_fs.PathCache.Kernel.{Name, Kernel}
use blorg_fs.PathCache.Paths.{bucket_of}
use blorg_fs.PathCache.Types.{
  Ticket, ListingEntry, Bucket, Cache, Snapshot, age, snapshot, is_listing_live,
}
use blorg_fs.PathCache.Lookup.{answer_listing, walk_listings, lookup_listing}

answer-claimed :
    (s : Snapshot) (allow_stale : Bool) (ticket : Option Ticket) (e : ListingEntry)
    (es : List ListingEntry)
    → e.refresh_claimed ≡ true
    → (answer_listing s allow_stale ticket e es).refresh_owed ≡ false
unfolding answer_listing
answer-claimed s allow_stale ticket e es h =
    elim (Bool-cases (
      is_listing_live e s.now s.generation s.lifetime
      && (not (leb s.lifetime (age e.issue_time s.now)) || allow_stale))) [
        | inl p ↦ rw p (rw h (ground arith))
        | inr p ↦ rw p refl
      ]

walk-claimed :
    (k : Kernel) (s s' : Snapshot) (dir : Name) (stale stale' : Bool)
    (ticket ticket' : Option Ticket) (es : List ListingEntry)
    → (walk_listings k s dir stale ticket es).refresh_owed ≡ true
    → (walk_listings k s' dir stale' ticket'
        (walk_listings k s dir stale ticket es).entries).refresh_owed
      ≡ false
unfolding walk_listings answer_listing
walk-claimed k s s' dir stale stale' ticket ticket' [] = λ h. refl
walk-claimed k s s' dir stale stale' ticket ticket' (e ∷ es) =
    elim (Bool-cases (k.equal e.path dir)) [
      | inl p ↦
          elim (Bool-cases (
            is_listing_live e s.now s.generation s.lifetime
            && (not (leb s.lifetime (age e.issue_time s.now)) || stale))) [
              | inl q ↦
                  rw (p, q)
                    (λ h. rw p (
                      answer-claimed s' stale' ticket'
                        (record e {
                          refresh_claimed =
                              leb s.lifetime (age e.issue_time s.now) || e.refresh_claimed;
                        })
                        es (ground arith)))
              | inr q ↦ rw (p, q) (λ h. absurd (cc h))
            ]
      | inr p ↦ rw p (λ h. rw p (walk-claimed k s s' dir stale stale' ticket ticket' es h))
    ]

-- The directory's bucket after a lookup.
abbrev replaced : Kernel → ℕ → Name → Bool → Option Ticket → Cache → Bucket ListingEntry
replaced k now dir stale ticket c = record (c.listing_buckets (bucket_of k dir)) {
  list =
      (walk_listings k (snapshot c now) dir stale ticket
        (c.listing_buckets (bucket_of k dir)).list).entries;
}

-- A snapshot is owed one refresh: after a lookup of a directory that is told to refetch its listing,
-- the next lookup of it, at whatever time, is not.
pub lookup_listing-refresh_owed :
    (k : Kernel) (now now' : ℕ) (dir : Name) (stale stale' : Bool) (ticket ticket' : Option Ticket)
    (c : Cache)
    → (lookup_listing k now dir stale ticket c).0.refresh_owed ≡ true
    → (lookup_listing k now' dir stale' ticket'
        (lookup_listing k now dir stale ticket c).1).0.refresh_owed
      ≡ false
unfolding lookup_listing
lookup_listing-refresh_owed k now now' dir stale stale' ticket ticket' c =
    elim (Bool-cases (c.ready && not (is_empty dir))) [
      | inr p ↦ rw p (λ h. absurd (cc h))
      | inl p ↦ rw p (λ h. rw p (
          rw (update_self c.listing_buckets (bucket_of k dir) (replaced k now dir stale ticket c)) (
            walk-claimed k (snapshot c now) (snapshot c now') dir stale stale' ticket ticket'
              (c.listing_buckets (bucket_of k dir)).list h)))
    ]
