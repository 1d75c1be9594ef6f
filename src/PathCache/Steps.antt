-- ===== src/PathCache/Steps.antt =====
-- The critical sections of src/PathCache.c as the steps of a run: each takes effect at once, under
-- one lock or as one interlocked operation, and those of different threads interleave freely.
-- A snapshot that a section uses was read before its lock was taken, so it is arbitrary here.
pub mod Valid
pub mod Reach
pub mod Runs
pub mod Kept
pub mod KeptListings
pub mod Race
pub mod RaceListings
use blorg_fs.Prelude.{ℕ, zero, suc, ◌^◌, ◌<◌, Bool, List, Option, update, add32}
use blorg_fs.PathCache.Kernel.{Name, Kernel}
use blorg_fs.PathCache.Paths.{buckets}
use blorg_fs.PathCache.Types.{
  Metadata, Ticket, Listing, ListingEntry, Cache, Snapshot, advance_sequence,
}
use blorg_fs.PathCache.Insert.{insert_locked}
use blorg_fs.PathCache.Lookup.{lookup_listing}
use blorg_fs.PathCache.Invalidate.{
  invalidate_locked, sweep_bucket, listing_drop, sweep_listing_bucket,
}
use blorg_fs.PathCache.Publish.{publish_locked}

module _ (k : Kernel) where
  pub data Step : Cache → Cache → Type 0 where
    inserts :
        {c : Cache} (s : Snapshot) (path : Name) (exists : Bool) (m : Option Metadata)
        (ticket : Option Ticket)
        → Step c (insert_locked k s path exists m ticket c)
    publishes :
        {c : Cache} (s : Snapshot) (allocated : Bool) (dir : Name) (l : Listing)
        (ticket : Option Ticket)
        → l.bytes < 2 ^ 63
        → Step c (publish_locked k s allocated dir l ticket c).1
    looks_up :
        {c : Cache} (now : ℕ) (dir : Name) (allow_stale : Bool) (ticket : Option Ticket)
        → Step c (lookup_listing k now dir allow_stale ticket c).1
    drops_path : {c : Cache} (path : Name) → Step c (invalidate_locked k path c)
    sweeps :
        {c : Cache} (dir : Name) (keep_dir children_only : Bool) (b : ℕ)
        → b < buckets
        → Step c (sweep_bucket k dir keep_dir children_only b c)
    drops_listing : {c : Cache} (dir : Name) → Step c (listing_drop k dir c)
    sweeps_listings :
        {c : Cache} (test : ListingEntry → Bool) (b : ℕ)
        → b < buckets
        → Step c (sweep_listing_bucket test b c)
    flushes : {c : Cache} → Step c (record c { generation = add32 c.generation 1 })
    switches : {c : Cache} (live : Bool) → Step c (record c { feed_live = live })

  -- A run, indexed by how many invalidations it advances the sequence for.
  pub data Run : ℕ → Cache → Cache → Type 0 where
    here : {c : Cache} → Run zero c c
    next : {n : ℕ} {c d e : Cache} → Run n c d → Step d e → Run n c e
    advances : {n : ℕ} {c d : Cache} → Run n c d → Run (suc n) c (advance_sequence d)
