-- ===== src/PathCache/Steps/KeptListings.antt =====
-- What holds of the entries of a listing bucket under the walks of src/PathCache.c.
use blorg_fs.Prelude.{
  ℕ, Bool, true, false, not, List, [], ◌∷◌, Option, none, some, inl, inr, arith, ◌&&◌, ◌||◌, leb,
  All, All-append, sum_of, sub64, add64, Bool-cases, Option-cases,
}
use blorg_fs.PathCache.Kernel.{Name, Kernel}
use blorg_fs.PathCache.Types.{
  Ticket, ListingEntry, Snapshot, Charges, uncharge, listing_max_bytes, is_listing_live, age,
}
use blorg_fs.PathCache.Lookup.{walk_listings, answer_listing}
use blorg_fs.PathCache.Invalidate.{drop_listing, sweep_listings}
use blorg_fs.PathCache.Publish.{
  publish_walk, offer, make_room, keep_listing, evict_one, evict_bytes, drop_existing, last_of_path,
  without_last, is_newer,
}

module _ {κ} (P : ListingEntry → Type κ) where
  pub drop_listing-All :
      (k : Kernel) (dir : Name) (es : List ListingEntry) (n : Charges)
      → All P es
      → All P (drop_listing k dir es n).0
  unfolding drop_listing
  drop_listing-All k dir [] n a = tt
  drop_listing-All k dir (e ∷ es) n a = elim (Bool-cases (k.equal e.path dir)) [
    | inl p ↦ rw p a.1
    | inr p ↦ rw p (a.0, drop_listing-All k dir es n a.1)
  ]

  pub sweep_listings-All :
      (test : ListingEntry → Bool) (es : List ListingEntry) (n : Charges)
      → All P es
      → All P (sweep_listings test es n).0
  unfolding sweep_listings
  sweep_listings-All test [] n a = tt
  sweep_listings-All test (e ∷ es) n a = elim (Bool-cases (test e)) [
    | inl p ↦ rw p (sweep_listings-All test es (uncharge n e) a.1)
    | inr p ↦ rw p (a.0, sweep_listings-All test es n a.1)
  ]

  without_last-All :
      (k : Kernel) (dir : Name) (es : List ListingEntry) → All P es → All P (without_last k dir es)
  unfolding without_last
  without_last-All k dir [] a = tt
  without_last-All k dir (e ∷ es) a = elim (Option-cases (last_of_path k dir es)) [
    | inl p ↦ elim (Bool-cases (k.equal e.path dir)) [
      | inl q ↦ rw (p, without_last, q) a.1
      | inr q ↦ rw (p, without_last, q) (a.0, without_last-All k dir es a.1)
    ]
    | inr (x, p) ↦ rw (p, without_last) (a.0, without_last-All k dir es a.1)
  ]

  evict_bytes-All :
      (bytes : ℕ) (es : List ListingEntry) (n : Charges)
      → All P es
      → All P (evict_bytes bytes es n).0
  unfolding evict_bytes
  evict_bytes-All bytes [] n a = tt
  evict_bytes-All bytes (e ∷ es) n a = ground (arith, evict_bytes-All bytes es (uncharge n e) a.1)

  evict_one-All : (es : List ListingEntry) (n : Charges) → All P es → All P (evict_one es n).0
  unfolding evict_one
  evict_one-All [] n a = tt
  evict_one-All (e ∷ es) n a = ground (arith, a.1)

  make_room-All :
      (bytes : ℕ) (es : List ListingEntry) (n : Charges) → All P es → All P (make_room bytes es n).0
  unfolding make_room
  make_room-All bytes es n a =
      elim (Bool-cases (
        leb (add64 (sub64 n.bytes (sum_of (λ (e : ListingEntry). e.bytes) es)) bytes)
          listing_max_bytes)) [
            | inl p ↦
                rw p (
                  evict_bytes-All bytes (evict_one es n).0 (evict_one es n).1
                    (evict_one-All es n a))
            | inr p ↦ rw p a
          ]

  keep_listing-All :
      (new : ListingEntry) (es : List ListingEntry) (n : Charges)
      → P new
      → All P es
      → All P (keep_listing new es n).0
  unfolding keep_listing
  keep_listing-All new es n h a =
      elim (Bool-cases (leb (add64 n.bytes new.bytes) listing_max_bytes)) [
        | inl p ↦ rw p (All-append P es (new ∷ []) a (h, tt))
        | inr p ↦ rw p a
      ]

  offer-All :
      (allocated : Bool) (new : ListingEntry) (es : List ListingEntry) (n : Charges)
      → P new
      → All P es
      → All P (offer allocated new es n).0
  unfolding offer
  offer-All false new es n h a = a
  offer-All true new es n h a =
      keep_listing-All new (make_room new.bytes es n).0 (make_room new.bytes es n).1 h
        (make_room-All new.bytes es n a)

  drop_existing-All :
      (k : Kernel) (dir : Name) (x : Option ListingEntry) (es : List ListingEntry) (n : Charges)
      → All P es
      → All P (drop_existing k dir x es n).0
  unfolding drop_existing
  drop_existing-All k dir none es n a = a
  drop_existing-All k dir (some x) es n a = without_last-All k dir es a

  pub publish_walk-All :
      (k : Kernel) (s : Snapshot) (allocated : Bool) (new : ListingEntry) (es : List ListingEntry)
      (n : Charges)
      → P new
      → All P es
      → All P (publish_walk k s allocated new es n).1
  unfolding publish_walk
  publish_walk-All k s allocated new es n h a =
      elim (Bool-cases (is_newer (last_of_path k new.path live) new.issue_time)) [
        | inl p ↦ rw p swept
        | inr p ↦ rw p (
            offer-All allocated new _ _ h
              (drop_existing-All k new.path (last_of_path k new.path live) live _ swept))
      ]
    where
      dead : ListingEntry → Bool
      dead x = not (is_listing_live x s.now s.generation s.lifetime)

      live : List ListingEntry
      live = (sweep_listings dead es n).0

      swept : All P live
      swept = sweep_listings-All dead es n a

  -- A lookup changes nothing but who claimed a refresh.
  pub walk_listings-All :
      (k : Kernel) (s : Snapshot) (dir : Name) (allow_stale : Bool) (ticket : Option Ticket)
      → ((e : ListingEntry) (claimed : Bool) → P e → P (record e { refresh_claimed = claimed }))
      → (es : List ListingEntry) → All P es
      → All P (walk_listings k s dir allow_stale ticket es).entries
  unfolding walk_listings answer_listing
  walk_listings-All k s dir allow_stale ticket h [] a = tt
  walk_listings-All k s dir allow_stale ticket h (e ∷ es) a =
      elim (Bool-cases (k.equal e.path dir)) [
        | inl p ↦
            elim (Bool-cases (
              is_listing_live e s.now s.generation s.lifetime
              && (not (leb s.lifetime (age e.issue_time s.now)) || allow_stale))) [
                | inl q ↦ rw (p, q) (h e _ a.0, a.1)
                | inr q ↦ rw (p, q) a
              ]
        | inr p ↦ rw p (a.0, walk_listings-All k s dir allow_stale ticket h es a.1)
      ]
