-- ===== src/PathCache/Lookup/AfterInsert.antt =====
-- What a lookup answers after an insert of the same path.
use blorg_fs.Prelude.{
  ℕ, ◌<◌, ◌≡◌, refl, sym, ap, ◌∙◌, Bool, true, false, Option, none, some, inl, inr, arith, is_empty,
  update_self, ltb, if◌then◌else◌, Bool-cases, lt→ltb, ==_refl,
}
use blorg_fs.PathCache.Kernel.{Name, Kernel, IsDocumented}
use blorg_fs.PathCache.Paths.{bucket_of}
use blorg_fs.PathCache.Types.{
  Metadata, zero_metadata, Ticket, PathEntry, Bucket, Cache, Snapshot, path_cache_exists,
  path_cache_not_found, ttl, is_live, age, snapshot, path_lifetime, ticket_honoured,
}
use blorg_fs.PathCache.Insert.{
  new_entry, insert_locked, insert, is_insertable, given_meta, meta_or, put_bucket, counts_of,
  ticket_sequence, ticket_time, insert_exists, insert_not_found,
}
use blorg_fs.PathCache.Lookup.{find, first_of_path, answer, miss, dated}
use blorg_fs.PathCache.Lookup.Laws.{Stored, append-first}

-- The cache that an accepted insert leaves: ready as before, under the same generation and feed,
-- and with the path's entry first among those of the path.
record Inserted (k : Kernel) (c c' : Cache) (new : PathEntry) (m : Option Metadata) : Type 0 where
  ready : c'.ready ≡ c.ready
  generation : c'.generation ≡ c.generation
  feed_live : c'.feed_live ≡ c.feed_live
  stored :
      (e : PathEntry) × (first_of_path k new.path (c'.buckets (bucket_of k new.path)).list ≡ some e)
      × Stored new m e

insert_locked-Inserted :
    (k : Kernel)
    → IsDocumented k
    → (s : Snapshot) (path : Name) (exists : Bool) (m : Option Metadata) (ticket : Option Ticket)
      (c : Cache)
    → ticket_honoured ticket c ≡ true
    → Inserted k c (insert_locked k s path exists m ticket c) (new_entry s path exists m ticket c) m
unfolding insert_locked put_bucket new_entry
insert_locked-Inserted k d s path exists m ticket c h =
    let (e, g, stored) =
      append-first k d s (new_entry s path exists m ticket c) m (c.buckets (bucket_of k path)).list
        (counts_of c (bucket_of k path)) (λ x q. ap (λ o. meta_or o zero_metadata) q) in
    rw h (record {
      ready = refl;
      generation = refl;
      feed_live = refl;
      stored = (
        e,
        ap (λ (x : Bucket PathEntry). first_of_path k path x.list)
              (update_self c.buckets (bucket_of k path) _)
            ∙ g,
        stored,
      );
    })

insert-Inserted :
    (k : Kernel)
    → IsDocumented k
    → (now : ℕ) (path : Name) (exists : Bool) (meta : Option Metadata) (ticket : Option Ticket)
      (c : Cache)
    → is_insertable c path (given_meta exists meta) ≡ true
    → ticket_honoured ticket c ≡ true
    → Inserted k c
        (insert k now true path exists meta ticket c)
        (new_entry (snapshot c now) path exists (given_meta exists meta) ticket c)
        (given_meta exists meta)
unfolding insert
insert-Inserted k d now path exists meta ticket c i h =
    rw i
      (insert_locked-Inserted k d (snapshot c now) path exists (given_meta exists meta) ticket c h)

pub find-ready :
    (k : Kernel) (now : ℕ) (path : Name) (asked : Option Ticket) (c : Cache)
    → c.ready ≡ true
    → is_empty path ≡ false
    → find k now path asked c
      ≡ answer (snapshot c now) asked (first_of_path k path (c.buckets (bucket_of k path)).list)
unfolding find
find-ready k now path asked c r e = rw (r, e)

answer-exists :
    (s : Snapshot) (asked : Option Ticket) (e : PathEntry)
    → e.exists ≡ true
    → e.generation ≡ s.generation
    → age e.issue_time s.now < s.lifetime
    → answer s asked (some e) ≡ record {
      result = path_cache_exists;
      meta = some e.meta;
      ticket = dated asked e.sequence e.issue_time;
    }
unfolding answer is_live
answer-exists s asked e x g y =
    simp (x, g, ==_refl s.generation, lt→ltb (age e.issue_time s.now) s.lifetime y)

answer-not_found :
    (s : Snapshot) (asked : Option Ticket) (e : PathEntry)
    → e.exists ≡ false
    → e.generation ≡ s.generation
    → answer s asked (some e) ≡ (
        if ltb (age e.issue_time s.now) ttl
        then record { result = path_cache_not_found; meta = none; ticket = asked }
        else miss asked)
unfolding answer is_live
answer-not_found s asked e x g = elim (Bool-cases (ltb (age e.issue_time s.now) ttl)) [
  | inl p ↦ simp (x, g, ==_refl s.generation, p)
  | inr p ↦ simp (x, g, ==_refl s.generation, p)
]

-- A resolution that is accepted, with its metadata, is found: while it is younger than the lifetime
-- (counted from its ticket's time), a lookup answers that the path exists, with that metadata, and
-- gives the asker the ticket of the read behind the entry, not one of the lookup's own.
pub find-insert_exists :
    (k : Kernel) (now later : ℕ) (path : Name) (meta : Metadata) (ticket asked : Option Ticket)
    (c : Cache)
    → IsDocumented k
    → is_insertable c path (some meta) ≡ true
    → ticket_honoured ticket c ≡ true
    → age (ticket_time ticket now) later < path_lifetime c
    → find k later path asked (insert_exists k now true path (some meta) ticket c) ≡ record {
      result = path_cache_exists;
      meta = some meta;
      ticket = dated asked (ticket_sequence ticket c) (ticket_time ticket now);
    }
unfolding insert_exists snapshot new_entry path_lifetime is_insertable
find-insert_exists k now later path meta ticket asked c d i h young =
    find-ready k later path asked c' (done.ready ∙ ground arith) (ground arith)
    ∙ ap (answer (snapshot c' later) asked) done.stored.1
    ∙ answer-exists (snapshot c' later) asked e stored.exists
        (stored.generation ∙ sym done.generation) (rw (stored.issue_time, done.feed_live) young)
    ∙ rw (stored.meta meta refl, stored.sequence, stored.issue_time)
  where
    c' : Cache
    c' = insert k now true path true (some meta) ticket c

    done : Inserted k c c' (new_entry (snapshot c now) path true (some meta) ticket c) (some meta)
    done = insert-Inserted k d now path true (some meta) ticket c i h

    e : PathEntry
    e = done.stored.0

    stored : Stored (new_entry (snapshot c now) path true (some meta) ticket c) (some meta) e
    stored = done.stored.2

-- A failed resolution that is accepted answers "not found" for the short TTL only, counted from its
-- ticket's time, whether or not the change feed is live; after that it is a miss.
pub find-insert_not_found :
    (k : Kernel) (now later : ℕ) (path : Name) (ticket asked : Option Ticket) (c : Cache)
    → IsDocumented k
    → is_insertable c path none ≡ true
    → ticket_honoured ticket c ≡ true
    → find k later path asked (insert_not_found k now true path ticket c) ≡ (
        if ltb (age (ticket_time ticket now) later) ttl
        then record { result = path_cache_not_found; meta = none; ticket = asked }
        else miss asked)
unfolding insert_not_found snapshot new_entry is_insertable
find-insert_not_found k now later path ticket asked c d i h =
    find-ready k later path asked c' (done.ready ∙ ground arith) (ground arith)
    ∙ ap (answer (snapshot c' later) asked) done.stored.1
    ∙ answer-not_found (snapshot c' later) asked e stored.exists
        (stored.generation ∙ sym done.generation)
    ∙ rw stored.issue_time
  where
    c' : Cache
    c' = insert k now true path false none ticket c

    done : Inserted k c c' (new_entry (snapshot c now) path false none ticket c) none
    done = insert-Inserted k d now path false none ticket c i h

    e : PathEntry
    e = done.stored.0

    stored : Stored (new_entry (snapshot c now) path false none ticket c) none e
    stored = done.stored.2
