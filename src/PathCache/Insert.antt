-- ===== src/PathCache/Insert.antt =====
-- PathCacheInsert of src/PathCache.c and its two callers: what happens before the bucket lock, and
-- the critical section under it, which other threads interleave with as one step.
use blorg_fs.Prelude.{
  ℕ, Bool, true, false, ◌&&◌, not, List, [], ◌∷◌, ◌++◌, Option, none, some, update, is_empty, add32,
  ltb, leb, if◌then◌else◌,
}
use blorg_fs.PathCache.Kernel.{Name, Kernel}
use blorg_fs.PathCache.Paths.{bucket_of}
use blorg_fs.PathCache.Types.{
  Metadata, zero_metadata, Ticket, PathEntry, Cache, Snapshot, Counts, max_per_bucket,
  max_path_bytes, byte_length, is_live, snapshot, ticket_honoured, drop_count,
}

-- `hasMeta ? Meta : nothing`
abbrev pub given_meta : Bool → Option Metadata → Option Metadata
given_meta true m = m
given_meta false m = none

abbrev pub meta_or : Option Metadata → Metadata → Metadata
meta_or none d = d
meta_or (some m) d = m

abbrev pub is_no_store : Option Metadata → Bool
is_no_store none = false
is_no_store (some m) = m.no_store

abbrev pub ticket_time : Option Ticket → ℕ → ℕ
ticket_time none now = now
ticket_time (some t) now = t.issue_time

abbrev pub ticket_sequence : Option Ticket → Cache → ℕ
ticket_sequence none c = c.sequence
ticket_sequence (some t) c = t.sequence

-- The prebuilt entry, with the sequence that it is given under the lock.
unfoldable pub new_entry :
    Snapshot → Name → Bool → Option Metadata → Option Ticket → Cache → PathEntry
new_entry s path exists m ticket c = record {
  path = path;
  issue_time = ticket_time ticket s.now;
  sequence = ticket_sequence ticket c;
  meta = meta_or m zero_metadata;
  generation = s.generation;
  exists = exists;
}

-- Refreshing an entry in place: its path stays, and its metadata if none is given.
unfoldable pub refresh : PathEntry → Option Metadata → PathEntry → PathEntry
refresh new m old = record old {
  exists = new.exists;
  meta = meta_or m old.meta;
  generation = new.generation;
  issue_time = new.issue_time;
  sequence = new.sequence;
}

-- What the walk over a bucket leaves: its entries, whether the path was refreshed in place, and the
-- counters.
pub record Walk : Type 0 where
  pub kept : List PathEntry
  pub found : Bool
  pub counts : Counts

-- The `while` loop: the path's own entry is refreshed and ends the walk; dead entries met before
-- it are removed.
unfoldable pub walk :
    Kernel → Snapshot → PathEntry → Option Metadata → List PathEntry → Counts → Walk
unfolding refresh is_live drop_count
walk k s new m [] n = record { kept = []; found = false; counts = n }
walk k s new m (e ∷ es) n =
    let live = is_live e s.now s.generation s.lifetime in
    let rest = walk k s new m es (if live then n else drop_count n) in
    if k.equal e.path new.path
    then record { kept = refresh new m e ∷ es; found = true; counts = n }
    else record rest { kept = if live then e ∷ rest.kept else rest.kept }

-- The oldest entry leaves a bucket at its capacity.
unfoldable pub evict : List PathEntry → Counts → List PathEntry × Counts
unfolding drop_count
evict [] n = ([], n)
evict (e ∷ es) n = if leb max_per_bucket n.bucket then (es, drop_count n) else (e ∷ es, n)

-- `if (!inserted)`: eviction, and the new entry at the tail.
unfoldable pub append : PathEntry → Walk → List PathEntry × Counts
unfolding evict
append new w =
    if w.found
    then (w.kept, w.counts)
    else let (es, n) = evict w.kept w.counts in
      (es ++ new ∷ [], record { bucket = add32 n.bucket 1; all = add32 n.all 1 })

unfoldable pub put_bucket : Cache → ℕ → List PathEntry → Counts → Cache
put_bucket c b es n = record c {
  buckets = update c.buckets b (record { list = es; count = n.bucket });
  count = n.all;
}

abbrev pub counts_of : Cache → ℕ → Counts
counts_of c b = record { bucket = (c.buckets b).count; all = c.count }

-- The critical section. `s` was read before the lock was taken.
unfoldable pub insert_locked :
    Kernel → Snapshot → Name → Bool → Option Metadata → Option Ticket → Cache → Cache
unfolding new_entry walk append put_bucket ticket_honoured
insert_locked k s path exists m ticket c =
    let b = bucket_of k path in
    let new = new_entry s path exists m ticket c in
    let (es, n) = append new (walk k s new m (c.buckets b).list (counts_of c b)) in
    if ticket_honoured ticket c then put_bucket c b es n else c

-- The checks before anything is allocated.
unfoldable pub is_insertable : Cache → Name → Option Metadata → Bool
is_insertable c path m =
    c.ready
    && not (is_empty path)
    && not (ltb max_path_bytes (byte_length path))
    && not (is_no_store m)

-- PathCacheInsert. `allocated` says whether both allocations succeed.
unfoldable pub insert :
    Kernel → ℕ → Bool → Name → Bool → Option Metadata → Option Ticket → Cache → Cache
unfolding insert_locked is_insertable snapshot
insert k now allocated path exists meta ticket c =
    let m = given_meta exists meta in
    if is_insertable c path m && allocated
    then insert_locked k (snapshot c now) path exists m ticket c
    else c

-- BlorgPathCacheInsertExists
unfoldable pub insert_exists :
    Kernel → ℕ → Bool → Name → Option Metadata → Option Ticket → Cache → Cache
unfolding insert
insert_exists k now allocated path meta ticket c = insert k now allocated path true meta ticket c

-- BlorgPathCacheInsertNotFound
unfoldable pub insert_not_found : Kernel → ℕ → Bool → Name → Option Ticket → Cache → Cache
unfolding insert
insert_not_found k now allocated path ticket c = insert k now allocated path false none ticket c
