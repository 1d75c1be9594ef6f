-- ===== src/PathCache/Valid/Offer.antt =====
-- A publish keeps a listing bucket and the byte budget within their caps.
use blorg_fs.Prelude.{
  ℕ, suc, ◌+◌, ◌^◌, ◌≤◌, ◌<◌, ◌≡◌, refl, ap, Bool, true, false, not, List, [], ◌∷◌, ◌++◌, inl, inr,
  arith, length, length-append, All, sum_of, sum_of-append, add64, sub64, leb, update, Bool-cases,
  Sub, Sub-All, length-Sub, sum_of-Sub,
}
use blorg_fs.PathCache.Kernel.{Name, Kernel, IsDocumented}
use blorg_fs.PathCache.Paths.{bucket_of}
use blorg_fs.PathCache.Types.{
  ListingEntry, Snapshot, Charges, listing_max_per_bucket, listing_max_bytes, is_listing_live,
}
use blorg_fs.PathCache.Invalidate.{sweep_listings}
use blorg_fs.PathCache.Publish.{
  evict_one, make_room, keep_listing, offer, is_newer, last_of_path, drop_existing, publish_walk,
}
use blorg_fs.PathCache.Valid.{IsHome, listing_paths_of, holds, held_bytes}
use blorg_fs.PathCache.Valid.PathBuckets.{IsHome-Sub, IsHome-append}
use blorg_fs.PathCache.Valid.Put.{ListingRefilled}
use blorg_fs.PathCache.Valid.ListingBuckets.{
  Released, Covers, Released-refl, Released-trans, Covers-Released, evict_one-Released,
  evict_bytes-Released, sweep_listings-Released,
}
use blorg_fs.PathCache.Valid.Replace.{drop_existing_lem}

make_room-Released :
    (bytes : ℕ) (es : List ListingEntry) (n : Charges)
    → Covers es n
    → let (es', n') = make_room bytes es n in Released es n es' n'
unfolding make_room
make_room-Released bytes es n c =
    elim (Bool-cases (leb (add64 (sub64 n.bytes (held_bytes es)) bytes) listing_max_bytes)) [
      | inl p ↦
          let one = evict_one-Released es n c in
          rw p (
            Released-trans one (
              evict_bytes-Released bytes (evict_one es n).0 (evict_one es n).1
                (Covers-Released c one)))
      | inr p ↦ rw p (Released-refl es n)
    ]

evict_one_room :
    (es : List ListingEntry) (n : Charges)
    → n.bucket ≡ length es
    → length es ≤ listing_max_per_bucket
    → suc (length (evict_one es n).0) ≤ listing_max_per_bucket
unfolding evict_one
evict_one_room [] n e h = omega arith
evict_one_room (x ∷ es) n e h = ground arith

-- Where the budget then admits the bytes, the bucket has room for one more.
make_room_room :
    (bytes : ℕ) (es : List ListingEntry) (n : Charges)
    → Covers es n
    → n.bucket ≡ length es
    → length es ≤ listing_max_per_bucket
    → n.bytes ≤ listing_max_bytes
    → bytes < 2 ^ 63
    → add64 (make_room bytes es n).1.bytes bytes ≤ listing_max_bytes
    → suc (length (make_room bytes es n).0) ≤ listing_max_per_bucket
unfolding make_room
make_room_room bytes es n c e h budget small fits =
    elim (Bool-cases (leb (add64 (sub64 n.bytes (held_bytes es)) bytes) listing_max_bytes)) [
      | inl p ↦
          let one = evict_one-Released es n c in
          let all =
            evict_bytes-Released bytes (evict_one es n).0 (evict_one es n).1
              (Covers-Released c one) in
          rw p (omega (arith, evict_one_room es n e h, length-Sub all.sub))
      | inr p ↦ absurd (ground (arith, c.bytes))
    ]

listing_paths_of-append :
    (es : List ListingEntry) (e : ListingEntry)
    → listing_paths_of (es ++ e ∷ []) ≡ listing_paths_of es ++ e.path ∷ []
listing_paths_of-append [] e = refl
listing_paths_of-append (x ∷ es) e =
    ap (λ (ps : List Name). x.path ∷ ps) (listing_paths_of-append es e)

pub Sub-listing_paths :
    {es' es : List ListingEntry}
    → Sub ListingEntry es' es
    → Sub Name (listing_paths_of es') (listing_paths_of es)
Sub-listing_paths Sub.done = Sub.done
Sub-listing_paths (Sub.keep s) = Sub.keep (Sub-listing_paths s)
Sub-listing_paths (Sub.skip s) = Sub.skip (Sub-listing_paths s)

module _ (k : Kernel) (b : ℕ) where
  -- An operation that only releases entries.
  pub ListingRefilled-Released :
      {es es' : List ListingEntry} {n n' : Charges}
      → IsHome k b (listing_paths_of es)
      → n.bucket ≡ length es
      → length es ≤ listing_max_per_bucket
      → n.bytes ≤ listing_max_bytes
      → Released es n es' n'
      → ListingRefilled k b es n es' n'
  ListingRefilled-Released {es} {es'} {n} {n'} h e c m r = record {
    home = IsHome-Sub k b (Sub-listing_paths r.sub) h;
    count = omega (arith, r.bucket, length-Sub r.sub);
    cap = omega (arith, length-Sub r.sub);
    bytes = r.bytes;
    budget = omega (arith, r.bytes, sum_of-Sub (λ (x : ListingEntry). x.bytes) r.sub);
    references = r.references;
  }

  ListingRefilled-trans :
      {es es' es'' : List ListingEntry} {n n' n'' : Charges}
      → ListingRefilled k b es n es' n'
      → ListingRefilled k b es' n' es'' n''
      → ListingRefilled k b es n es'' n''
  ListingRefilled-trans {es} {es'} {es''} {n} {n'} {n''} r s = record {
    home = s.home;
    count = s.count;
    cap = s.cap;
    bytes = omega (arith, r.bytes, s.bytes);
    budget = s.budget;
    references = λ id. omega (arith, r.references id, s.references id);
  }

  keep_listing-Refilled :
      (new : ListingEntry) {es₀ es : List ListingEntry} {n₀ n : Charges}
      → ListingRefilled k b es₀ n₀ es n
      → bucket_of k new.path ≡ b
      → new.bytes < 2 ^ 63
      → All (λ p. k.equal p new.path ≡ false) (listing_paths_of es)
      → (add64 n.bytes new.bytes ≤ listing_max_bytes → suc (length es) ≤ listing_max_per_bucket)
      → let (es', n') = keep_listing new es n in ListingRefilled k b es₀ n₀ es' n'
  unfolding keep_listing
  keep_listing-Refilled new {es₀} {es} {n₀} {n} r home small apart room =
      elim (Bool-cases (leb (add64 n.bytes new.bytes) listing_max_bytes)) [
        | inl p ↦
            let fits : add64 n.bytes new.bytes ≤ listing_max_bytes = ground arith in
            rw p (record {
              home =
                  rw (listing_paths_of-append es new)
                    (IsHome-append k b (listing_paths_of es) new.path r.home home apart);
              count = omega (arith, r.count, room fits, length-append es (new ∷ []));
              cap = omega (arith, room fits, length-append es (new ∷ []));
              bytes = omega (
                arith,
                r.bytes,
                r.budget,
                sum_of-append (λ (x : ListingEntry). x.bytes) es (new ∷ []),
              );
              budget = fits;
              references = λ id. kept id;
            })
        | inr p ↦ rw p r
      ]
    where
      kept :
          (id : ℕ)
          → update n.references new.listing.id (n.references new.listing.id + 1) id
              + sum_of (holds id) es₀
            ≡ n₀.references id + sum_of (holds id) (es ++ new ∷ [])
      kept id = ground (arith, r.references id, sum_of-append (holds id) es (new ∷ []))

  offer-Refilled :
      (allocated : Bool) (new : ListingEntry) {es₀ es : List ListingEntry} {n₀ n : Charges}
      → ListingRefilled k b es₀ n₀ es n
      → Covers es n
      → bucket_of k new.path ≡ b
      → new.bytes < 2 ^ 63
      → All (λ p. k.equal p new.path ≡ false) (listing_paths_of es)
      → let (es', n') = offer allocated new es n in ListingRefilled k b es₀ n₀ es' n'
  unfolding offer
  offer-Refilled false new r c home small apart = r
  offer-Refilled true new {es₀} {es} {n₀} {n} r c home small apart =
      keep_listing-Refilled new made home small
        (Sub-All (λ p. k.equal p new.path ≡ false) (Sub-listing_paths freed.sub) apart)
        (make_room_room new.bytes es n c r.count r.cap r.budget small)
    where
      freed : Released es n (make_room new.bytes es n).0 (make_room new.bytes es n).1
      freed = make_room-Released new.bytes es n c

      made : ListingRefilled k b es₀ n₀ (make_room new.bytes es n).0 (make_room new.bytes es n).1
      made = ListingRefilled-trans r (ListingRefilled-Released r.home r.count r.cap r.budget freed)

  module _ (d : IsDocumented k) where
    pub publish_walk-Refilled :
        (s : Snapshot) (allocated : Bool) (new : ListingEntry) (es : List ListingEntry)
        (n : Charges)
        → IsHome k b (listing_paths_of es)
        → n.bucket ≡ length es
        → length es ≤ listing_max_per_bucket
        → n.bytes ≤ listing_max_bytes
        → Covers es n
        → bucket_of k new.path ≡ b
        → new.bytes < 2 ^ 63
        → let (current, es', n') = publish_walk k s allocated new es n in
          ListingRefilled k b es n es' n'
    unfolding publish_walk
    publish_walk-Refilled s allocated new es n h e m g c home small =
        elim (Bool-cases (is_newer (last_of_path k new.path live) new.issue_time)) [
          | inl p ↦ rw p swept_all
          | inr p ↦ rw p (
              offer-Refilled allocated new rest_all (Covers-Released live_covers dropped.0) home
                small dropped.1)
        ]
      where
        dead : ListingEntry → Bool
        dead x = not (is_listing_live x s.now s.generation s.lifetime)

        live : List ListingEntry
        live = (sweep_listings dead es n).0

        n₁ : Charges
        n₁ = (sweep_listings dead es n).1

        swept : Released es n live n₁
        swept = sweep_listings-Released dead es n c

        swept_all : ListingRefilled k b es n live n₁
        swept_all = ListingRefilled-Released h e m g swept

        live_covers : Covers live n₁
        live_covers = Covers-Released c swept

        rest : List ListingEntry × Charges
        rest = drop_existing k new.path (last_of_path k new.path live) live n₁

        dropped :
            Released live n₁ rest.0 rest.1
            × All (λ p. k.equal p new.path ≡ false) (listing_paths_of rest.0)
        dropped = drop_existing_lem k new.path d live n₁ live_covers swept_all.home.distinct

        rest_all : ListingRefilled k b es n rest.0 rest.1
        rest_all = ListingRefilled-trans swept_all (
            ListingRefilled-Released swept_all.home swept_all.count swept_all.cap swept_all.budget
              dropped.0)
