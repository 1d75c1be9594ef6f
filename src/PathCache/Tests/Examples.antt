-- ===== src/PathCache/Tests/Examples.antt =====
-- Each theorem on the caches at an input that exercises the code, and runs by evaluation.
use blorg_fs.Prelude.{[], ◌≡◌, ◌≢◌, refl, true, false, ◌∷◌, ◌++◌, none, some, ◌↔◌, arith, All}
use blorg_fs.PathCache.Kernel.{separator, fold_case}
use blorg_fs.PathCache.Paths.{bucket_of, parent, is_under}
use blorg_fs.PathCache.Paths.Laws.{parent-append}
use blorg_fs.PathCache.Paths.Under.{Under, is_under_iff}
use blorg_fs.PathCache.Types.{
  is_listing_live, Cache, init, path_cache_exists, path_cache_not_found, take_ticket,
  advance_sequence, ticket_honoured, age, path_lifetime,
}
use blorg_fs.PathCache.Insert.{insert_locked, insert_exists, insert_not_found, is_insertable}
use blorg_fs.PathCache.Lookup.{find, miss, lookup_listing, walk_listings, answer_listing}
use blorg_fs.PathCache.Lookup.Refresh.{lookup_listing-refresh_owed}
use blorg_fs.PathCache.Lookup.AfterInsert.{find-insert_exists, find-insert_not_found}
use blorg_fs.PathCache.Lookup.AfterInvalidate.{find-invalidate, find-invalidate_prefix}
use blorg_fs.PathCache.Invalidate.{
  invalidate, invalidate_locked, invalidate_prefix, sweep_bucket, listing_drop,
  sweep_listing_bucket, is_listing_under,
}
use blorg_fs.PathCache.Publish.{publish_locked}
use blorg_fs.PathCache.Valid.{IsValid}
use blorg_fs.PathCache.Steps.{next, here, inserts, publishes}
use blorg_fs.PathCache.Steps.Runs.{perform_all, history-IsValid, init-IsValid}
use blorg_fs.PathCache.Steps.Race.{invalidated_path_stays_out, invalidated_prefix_stays_out}
use blorg_fs.PathCache.Steps.RaceListings.{
  invalidated_listing_stays_out, invalidated_subtree_listings_stay_out,
}
use blorg_fs.PathCache.Tests.Ascii.{ascii, ascii-IsDocumented}
use blorg_fs.PathCache.Tests.Inputs.{
  movies, movie, movie_upper, codes, blank, found, early, at_ten, listed, script,
}

abbrev fresh : Cache
fresh = init blank

history-IsValid_example : IsValid ascii (perform_all ascii script (init blank))
history-IsValid_example = history-IsValid ascii blank script ascii-IsDocumented (omega arith)

-- An insert ticketed before the invalidation arrives after it.
invalidated_path_stays_out_example :
    All
      (λ e. ascii.equal e.path movie ≡ true → e.sequence ≢ (take_ticket fresh 5).sequence)
      ((insert_locked ascii at_ten movie true
          (some found)
          (some early)
          (invalidate_locked ascii movie (advance_sequence fresh))).buckets
        (bucket_of ascii movie)).list
unfolding init
invalidated_path_stays_out_example =
    invalidated_path_stays_out ascii movie 5 ascii-IsDocumented (init-IsValid ascii blank)
      (omega arith) here here (next here (inserts at_ten movie true (some found) (some early)))
      (omega arith)

invalidated_prefix_stays_out_example :
    All
      (λ e. is_under ascii movies e.path ≡ true → e.sequence ≢ (take_ticket fresh 5).sequence)
      ((insert_locked ascii at_ten movie true (some found) (some early) (
          sweep_bucket ascii movies false false
            (bucket_of ascii movie)
            (advance_sequence fresh))).buckets
        (bucket_of ascii movie)).list
unfolding init
invalidated_prefix_stays_out_example =
    invalidated_prefix_stays_out ascii movies (bucket_of ascii movie) 5 (omega arith) here here
      (next here (inserts at_ten movie true (some found) (some early))) (omega arith)

invalidated_listing_stays_out_example :
    All
      (λ e. ascii.equal e.path movies ≡ true → e.sequence ≢ (take_ticket fresh 5).sequence)
      ((publish_locked ascii at_ten true movies listed
          (some early)
          (listing_drop ascii movies (advance_sequence fresh))).1.listing_buckets
        (bucket_of ascii movies)).list
unfolding init
invalidated_listing_stays_out_example =
    invalidated_listing_stays_out ascii movies 5 ascii-IsDocumented (init-IsValid ascii blank)
      (omega arith) here here
      (next here (publishes at_ten true movies listed (some early) (omega arith))) (omega arith)

invalidated_subtree_listings_stay_out_example :
    All
      (λ e. is_under ascii movies e.path ≡ true → e.sequence ≢ (take_ticket fresh 5).sequence)
      ((publish_locked ascii at_ten true movies listed (some early) (
          sweep_listing_bucket
            (is_listing_under ascii (some movies))
            (bucket_of ascii movies)
            (advance_sequence fresh))).1.listing_buckets
        (bucket_of ascii movies)).list
unfolding init
invalidated_subtree_listings_stay_out_example =
    invalidated_subtree_listings_stay_out ascii movies (bucket_of ascii movies) 5 (omega arith) here
      here (next here (publishes at_ten true movies listed (some early) (omega arith)))
      (omega arith)

find-insert_exists_example :
    find ascii 30 movie
      (some (record { sequence = 8; issue_time = 30 }))
      (insert_exists ascii 6 true movie (some found) (some early) fresh)
    ≡ record { result = path_cache_exists; meta = some found; ticket = some early }
unfolding init is_insertable ticket_honoured age path_lifetime
find-insert_exists_example =
    find-insert_exists ascii 6 30 movie found (some early)
      (some (record { sequence = 8; issue_time = 30 })) fresh ascii-IsDocumented refl refl
      (omega arith)

find-insert_not_found_example :
    find ascii 30 movie none (insert_not_found ascii 6 true movie (some early) fresh)
    ≡ record { result = path_cache_not_found; meta = none; ticket = none }
unfolding init is_insertable ticket_honoured age
find-insert_not_found_example =
    find-insert_not_found ascii 6 30 movie (some early) none fresh ascii-IsDocumented refl refl

find-invalidate_example : find ascii 30 movie none (invalidate ascii movie fresh) ≡ miss none
find-invalidate_example =
    find-invalidate ascii 30 movie none fresh ascii-IsDocumented (init-IsValid ascii blank)

find-invalidate_prefix_example :
    find ascii 30 movie_upper none (
      invalidate_prefix ascii movies
        (insert_exists ascii 6 true movie (some found) (some early) fresh))
    ≡ miss none
unfolding is_under
find-invalidate_prefix_example =
    find-invalidate_prefix ascii 30 movies movie_upper none
      (insert_exists ascii 6 true movie (some found) (some early) fresh) ascii-IsDocumented refl
      refl

is_under_iff_example :
    (is_under ascii movies movie_upper ≡ true)
    ↔ Under (fold_case ascii movies) (fold_case ascii movie_upper)
is_under_iff_example = is_under_iff ascii movies movie_upper ascii-IsDocumented

parent-append_example :
    (parent (movies ++ separator ∷ codes "a.mkv") ≡ some movies) × (parent (codes "a.mkv") ≡ none)
parent-append_example = parent-append movies (codes "a.mkv") (omega arith)

-- A listing published 5 seconds ago, past the short lifetime, in every bucket.
abbrev aged : Cache
aged = record blank {
  listing_buckets = λ b. record {
    list =
        record {
          path = movies;
          listing = listed;
          bytes = 4096;
          issue_time = 0;
          sequence = 0;
          generation = 4;
          refresh_claimed = false;
        }
        ∷ [];
    count = 1;
  };
  ready = true;
}

lookup_listing-refresh_owed_example :
    (lookup_listing ascii 60000000 movies true none
      (lookup_listing ascii 50000000 movies true none aged).1).0.refresh_owed
    ≡ false
unfolding lookup_listing walk_listings answer_listing is_listing_live
lookup_listing-refresh_owed_example =
    lookup_listing-refresh_owed ascii 50000000 60000000 movies true true none none aged refl
