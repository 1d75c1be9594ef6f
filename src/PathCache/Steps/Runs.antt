-- ===== src/PathCache/Steps/Runs.antt =====
-- Every history of calls of the entry points of src/PathCache.c keeps the invariant of the caches.
use blorg_fs.Prelude.{
  ℕ, ◌^◌, ◌<◌, refl, Bool, not, List, [], ◌∷◌, Option, arith, ◌||◌, is_empty, All, total-le,
}
use blorg_fs.PathCache.Kernel.{Name, Kernel, IsDocumented}
use blorg_fs.PathCache.Paths.{buckets}
use blorg_fs.PathCache.Types.{Metadata, Ticket, Listing, Descendant, Cache, init}
use blorg_fs.PathCache.Insert.{insert}
use blorg_fs.PathCache.Lookup.{lookup_listing}
use blorg_fs.PathCache.Invalidate.{invalidate, invalidate_prefix, invalidate_all, follow_feed}
use blorg_fs.PathCache.Publish.{Machine, publish_listing}
use blorg_fs.PathCache.Publish.Seed.{seed_listing}
use blorg_fs.PathCache.Publish.Descendants.{publish_descendants}
use blorg_fs.PathCache.Valid.{IsValid}
use blorg_fs.PathCache.Steps.{looks_up, here}
use blorg_fs.PathCache.Steps.Valid.{Run-IsValid}
use blorg_fs.PathCache.Steps.Reach.{
  Reaches, step, insert-Reaches, invalidate-Reaches, invalidate_prefix-Reaches,
  invalidate_all-Reaches, follow_feed-Reaches, publish_listing-Reaches, seed_listing-Reaches,
  Reaches-if-second, publish_from-Reaches,
}

-- A call of an entry point, with what the machine answers during it. Lookups in the path cache
-- change nothing.
pub data Call : Type 0 where
  inserts_path : ℕ → Bool → Name → Bool → Option Metadata → Option Ticket → Call
  looks_up_listing : ℕ → Name → Bool → Option Ticket → Call
  invalidates : Name → Call
  invalidates_prefix : Name → Call
  invalidates_all : Call
  follows_feed : Bool → Call
  publishes_listing : ℕ → Bool → Name → Listing → Option Ticket → Call
  seeds_listing : Machine → Machine → Bool → Name → Option Listing → Option Ticket → Call
  publishes_descendants :
      Machine → (ℕ → Bool) → Bool → Name → Listing → List Descendant → Option Ticket → Call

-- A listing's size in bytes fits a signed 64-bit number, as the address space makes sure.
abbrev pub IsSized : Call → Type 0
IsSized (publishes_listing now allocated dir l ticket) = l.bytes < 2 ^ 63
IsSized (publishes_descendants m buffers allocated dir root ds ticket) =
    All (λ d. d.listing.bytes < 2 ^ 63) ds
IsSized call = Unit

unfoldable pub perform : Kernel → Call → Cache → Cache
perform k (inserts_path now allocated path exists meta ticket) c =
    insert k now allocated path exists meta ticket c
perform k (looks_up_listing now dir allow_stale ticket) c =
    (lookup_listing k now dir allow_stale ticket c).1
perform k (invalidates path) c = invalidate k path c
perform k (invalidates_prefix dir) c = invalidate_prefix k dir c
perform k invalidates_all c = invalidate_all k c
perform k (follows_feed live) c = follow_feed k live c
perform k (publishes_listing now allocated dir l ticket) c =
    (publish_listing k now allocated dir l ticket c).1
perform k (seeds_listing m₁ m₂ allocated dir l ticket) c =
    seed_listing k m₁ m₂ allocated dir l ticket c
perform k (publishes_descendants m buffers allocated dir root ds ticket) c =
    (publish_descendants k m buffers allocated dir root ds ticket c).1

unfoldable pub perform_all : Kernel → List Call → Cache → Cache
perform_all k [] c = c
perform_all k (call ∷ calls) c = perform_all k calls (perform k call c)

module _ (k : Kernel) {c₀ : Cache} where
  perform-Reaches :
      (call : Call) (c : Cache) → IsSized call → Reaches k c₀ c → Reaches k c₀ (perform k call c)
  unfolding perform publish_descendants
  perform-Reaches (inserts_path now allocated path exists meta ticket) c h r =
      insert-Reaches k now allocated path exists meta ticket c r
  perform-Reaches (looks_up_listing now dir allow_stale ticket) c h r =
      step k r (looks_up now dir allow_stale ticket)
  perform-Reaches (invalidates path) c h r = invalidate-Reaches k path c r
  perform-Reaches (invalidates_prefix dir) c h r = invalidate_prefix-Reaches k dir c r
  perform-Reaches invalidates_all c h r = invalidate_all-Reaches k c r
  perform-Reaches (follows_feed live) c h r = follow_feed-Reaches k live c r
  perform-Reaches (publishes_listing now allocated dir l ticket) c h r =
      publish_listing-Reaches k now allocated dir l ticket c h r
  perform-Reaches (seeds_listing m₁ m₂ allocated dir l ticket) c h r =
      seed_listing-Reaches k m₁ m₂ allocated dir l ticket c r
  perform-Reaches (publishes_descendants m buffers allocated dir root ds ticket) c h r =
      Reaches-if-second k (not c.ready || is_empty dir || is_empty ds || not allocated) _ _ r
        (publish_from-Reaches k m buffers root ds ticket (dir ∷ []) 0 ds c h r)

-- BlorgPathCacheInit establishes the invariant.
pub init-IsValid : (k : Kernel) (c : Cache) → IsValid k (init c)
unfolding init
init-IsValid k c = record {
  path_home = λ b. record { home = tt; distinct = tt };
  path_count = λ b. refl;
  path_cap = λ b. omega arith;
  counted = omega (arith, total-le buckets 0 (λ b. 0) (λ b. omega arith));
  listing_home = λ b. record { home = tt; distinct = tt };
  listing_count = λ b. refl;
  listing_cap = λ b. omega arith;
  charged = omega (arith, total-le buckets 0 (λ b. 0) (λ b. omega arith));
  budget = omega arith;
  referenced = λ id. omega (arith, total-le buckets 0 (λ b. 0) (λ b. omega arith));
}

pub perform_all-IsValid :
    (k : Kernel) (calls : List Call) (c : Cache)
    → IsDocumented k
    → All IsSized calls
    → IsValid k c
    → IsValid k (perform_all k calls c)
unfolding perform_all
perform_all-IsValid k [] c d h v = v
perform_all-IsValid k (call ∷ calls) c d h v =
    let (n, r) = perform-Reaches k call c h.0 (0, here) in
    perform_all-IsValid k calls (perform k call c) d h.1 (Run-IsValid k d r v)

-- After BlorgPathCacheInit and any sequence of calls of the cache's entry points, whatever the
-- machine answers during them, the invariant holds: every entry is in its hash's bucket, no two
-- entries of a bucket have equal paths, no bucket is over its cap, the counters equal what they
-- count, the listings' bytes are those charged and within the budget, and no listing has fewer
-- references than the entries that hold it. Listings have fewer than 2 ^ 63 bytes.
pub history-IsValid :
    (k : Kernel) (c : Cache) (calls : List Call)
    → IsDocumented k
    → All IsSized calls
    → IsValid k (perform_all k calls (init c))
history-IsValid k c calls d h = perform_all-IsValid k calls (init c) d h (init-IsValid k c)
