-- ===== src/ChangeFeed/Live.antt =====
-- When the feed of src/ChangeFeed.c is live, and that a feed that was down comes up by a reset.
use blorg_fs.Prelude.{
  ℕ, zero, suc, ◌≡◌, ◌≢◌, refl, sym, ◌∙◌, Bool, true, false, not, ◌||◌, List, [], ◌∷◌, Option, none,
  some, inl, inr, arith, Bool-cases, Option-cases, is_empty,
}
use blorg_fs.PathCache.Kernel.{Name, Kernel}
use blorg_fs.PathCache.Paths.{buckets, parent}
use blorg_fs.PathCache.Types.{Cache, advance_sequence}
use blorg_fs.PathCache.Insert.{put_bucket}
use blorg_fs.PathCache.Invalidate.{
  for_buckets, put_listings, invalidate_locked, sweep_bucket, invalidate_under, listing_drop,
  listing_drop_parent, invalidate, sweep_listing_bucket, listing_drop_under, invalidate_prefix,
  invalidate_all, follow_feed,
}
use blorg_fs.ChangeFeed.State.{ChangeEntry, Batch, Feed}
use blorg_fs.ChangeFeed.Apply.{
  is_modified, invalidate_entry, invalidate_entries, is_wholesale, apply, nt_success, receive,
  receive_failure, receive_batch, act_on, is_reset,
}
use blorg_fs.ChangeFeed.Poll.{Reply, outcome_status, outcome_batch, poll, follow, start}

-- Something of the cache that no invalidation of a path or of a subtree changes.
pub record IsKept {A : Type 0} (g : Cache → A) : Type 0 where
  pub advanced : (c : Cache) → g (advance_sequence c) ≡ g c
  pub bucket_put : (c : Cache) (b : ℕ) → (es : _) (n : _) → g (put_bucket c b es n) ≡ g c
  pub listings_put : (c : Cache) (b : ℕ) → (es : _) (n : _) → g (put_listings c b es n) ≡ g c

module _ {A : Type 0} (g : Cache → A) (h : IsKept g) (k : Kernel) where
  for_buckets-keeps :
      (body : ℕ → Cache → Cache)
      → ((b : ℕ) (c : Cache) → g (body b c) ≡ g c)
      → (n : ℕ) (c : Cache) → g (for_buckets body n c) ≡ g c
  unfolding for_buckets
  for_buckets-keeps body s zero c = refl
  for_buckets-keeps body s (suc n) c = s n _ ∙ for_buckets-keeps body s n c

  listing_drop-keeps : (dir : Name) (c : Cache) → g (listing_drop k dir c) ≡ g c
  unfolding listing_drop
  listing_drop-keeps dir c = h.listings_put c _ _ _

  listing_drop_parent-keeps : (path : Name) (c : Cache) → g (listing_drop_parent k path c) ≡ g c
  unfolding listing_drop_parent
  listing_drop_parent-keeps path c = elim (Option-cases (parent path)) [
    | inl p ↦ rw (p, listing_drop_parent) refl
    | inr (dir, p) ↦ rw (p, listing_drop_parent) (listing_drop-keeps dir c)
  ]

  pub invalidate-keeps : (path : Name) (c : Cache) → g (invalidate k path c) ≡ g c
  unfolding invalidate invalidate_locked
  invalidate-keeps path c = elim (Bool-cases (not c.ready || is_empty path)) [
    | inl p ↦ rw p refl
    | inr p ↦ rw p (
        listing_drop_parent-keeps path _
        ∙ listing_drop-keeps path _
        ∙ h.bucket_put (advance_sequence c) _ _ _
        ∙ h.advanced c)
  ]

  pub listing_drop_under-keeps :
      (dir : Option Name) (c : Cache) → g (listing_drop_under k dir c) ≡ g c
  unfolding listing_drop_under sweep_listing_bucket
  listing_drop_under-keeps dir c = for_buckets-keeps _ (λ b c'. h.listings_put c' b _ _) buckets c

  invalidate_under-keeps : (dir : Name) (c : Cache) → g (invalidate_under k dir false false c) ≡ g c
  unfolding invalidate_under sweep_bucket
  invalidate_under-keeps dir c = for_buckets-keeps _ (λ b c'. h.bucket_put c' b _ _) buckets c

  pub invalidate_prefix-keeps : (dir : Name) (c : Cache) → g (invalidate_prefix k dir c) ≡ g c
  unfolding invalidate_prefix
  invalidate_prefix-keeps dir c = elim (Bool-cases (not c.ready || is_empty dir)) [
    | inl p ↦ rw p refl
    | inr p ↦ rw p (
        listing_drop_parent-keeps dir _
        ∙ listing_drop_under-keeps (some dir) _
        ∙ invalidate_under-keeps dir _
        ∙ h.advanced c)
  ]

  pub invalidate_entry-keeps : (e : ChangeEntry) (c : Cache) → g (invalidate_entry k e c) ≡ g c
  unfolding invalidate_entry
  invalidate_entry-keeps e c = elim (Bool-cases (is_modified e.kind)) [
    | inl p ↦ rw p (invalidate-keeps e.path c)
    | inr p ↦ rw p (invalidate_prefix-keeps e.path c)
  ]

  pub invalidate_entries-keeps :
      (es : List ChangeEntry) (c : Cache) → g (invalidate_entries k es c) ≡ g c
  unfolding invalidate_entries
  invalidate_entries-keeps [] c = refl
  invalidate_entries-keeps (e ∷ es) c = invalidate_entries-keeps es _ ∙ invalidate_entry-keeps e c

pub feed_live-IsKept : IsKept (λ c. c.feed_live)
unfolding advance_sequence put_bucket put_listings
feed_live-IsKept = record {
  advanced = λ c. refl;
  bucket_put = λ c b es n. refl;
  listings_put = λ c b es n. refl;
}

pub ready-IsKept : IsKept (λ c. c.ready)
unfolding advance_sequence put_bucket put_listings
ready-IsKept = record {
  advanced = λ c. refl;
  bucket_put = λ c b es n. refl;
  listings_put = λ c b es n. refl;
}

pub generation-IsKept : IsKept (λ c. c.generation)
unfolding advance_sequence put_bucket put_listings
generation-IsKept = record {
  advanced = λ c. refl;
  bucket_put = λ c b es n. refl;
  listings_put = λ c b es n. refl;
}

invalidate_all-live : (k : Kernel) (c : Cache) → (invalidate_all k c).feed_live ≡ c.feed_live
unfolding invalidate_all advance_sequence
invalidate_all-live k c = elim (Bool-cases c.ready) [
  | inl p ↦ rw p (listing_drop_under-keeps (λ c'. c'.feed_live) feed_live-IsKept k none _)
  | inr p ↦ rw p refl
]

-- A feed that is down follows no server process.
abbrev pub IsSynced : Feed → Type 0
IsSynced f = f.cache.feed_live ≡ false → f.epoch ≡ 0

apply-live : (k : Kernel) (b : Batch) (f : Feed) → (apply k b f).cache.feed_live ≡ f.cache.feed_live
unfolding apply
apply-live k b f = elim (Bool-cases (is_wholesale b.entries)) [
  | inl p ↦ rw p (invalidate_all-live k f.cache)
  | inr p ↦ rw p (invalidate_entries-keeps (λ c. c.feed_live) feed_live-IsKept k b.entries f.cache)
]

receive_batch-IsSynced :
    (k : Kernel) (b : Batch) (f : Feed) → IsSynced f → IsSynced (receive_batch k b f)
unfolding receive_batch act_on follow_feed
receive_batch-IsSynced k b f h = elim (Bool-cases (is_reset b f)) [
  | inl p ↦ rw p (λ down. absurd (ground arith))
  | inr p ↦ rw p (λ down. ground (arith, h (sym (apply-live k b f) ∙ down)))
]

receive-IsSynced :
    (k : Kernel) (status : ℕ) (batch : Option Batch) (f : Feed)
    → IsSynced f
    → IsSynced (receive k status batch f)
unfolding receive receive_failure
receive-IsSynced k status none f h = λ _. refl
receive-IsSynced k status (some b) f h = elim (Bool-cases (nt_success status)) [
  | inl p ↦ rw p (receive_batch-IsSynced k b f h)
  | inr p ↦ rw p (λ down. refl)
]

follow-IsSynced : (k : Kernel) (rs : List Reply) (f : Feed) → IsSynced f → IsSynced (follow k rs f)
unfolding follow poll
follow-IsSynced k [] f h = h
follow-IsSynced k (r ∷ rs) f h =
    follow-IsSynced k rs (poll k r f) (receive-IsSynced k (outcome_status r) (outcome_batch r) _ h)

-- After BlorgChangeFeedStart and any history of polls, a batch that finds the feed down is acted
-- on as a reset, whatever it says, so that no batch is applied piecewise to caches that a
-- failed poll left behind. The server names its process by a nonzero epoch.
pub follow-is_reset :
    (k : Kernel) (created : Bool) (rs : List Reply) (b : Batch) (f : Feed)
    → f.thread ≡ false
    → b.epoch ≢ 0
    → (follow k rs (start true created f)).cache.feed_live ≡ false
    → is_reset b (follow k rs (start true created f)) ≡ true
unfolding start
follow-is_reset k created rs b f t ne down =
    ground (arith, follow-IsSynced k rs (start true created f) started down)
  where
    started : IsSynced (start true created f)
    started = λ _. rw t refl
