-- ===== src/PathCache/Publish/Seed.antt =====
-- BlorgPathCacheSeedListing of src/PathCache.c.
use blorg_fs.Prelude.{
  ℕ, zero, suc, ◌+◌, ◌-◌, Bool, true, false, ◌||◌, not, List, [], ◌∷◌, ◌++◌, Option, none, some,
  length, get_elem?, is_empty, ltb, if◌then◌else◌,
}
use blorg_fs.PathCache.Kernel.{Name, separator, Kernel}
use blorg_fs.PathCache.Paths.{is_component, ends_with_separator}
use blorg_fs.PathCache.Types.{
  Metadata, zero_metadata, Ticket, Child, Listing, Cache, max_path_bytes, seed_max, byte_length,
}
use blorg_fs.PathCache.Insert.{insert_exists}
use blorg_fs.PathCache.Invalidate.{invalidate_under}
use blorg_fs.PathCache.Publish.{Machine}

-- The directory path with its trailing separator, as the scratch buffer holds it.
unfoldable pub with_separator : Name → Name
unfolding ends_with_separator
with_separator dir = if ends_with_separator dir then dir else dir ++ separator ∷ []

unfoldable pub child_metadata : Bool → Child → Metadata
child_metadata is_directory child = record zero_metadata {
  size = if is_directory then 0 else child.size;
  creation_time = child.creation_time;
  last_accessed_time = child.last_accessed_time;
  last_modified_time = child.last_modified_time;
  is_directory = is_directory;
}

-- PathCacheSeedEntry. `scratch` ends in the separator.
unfoldable pub seed_entry :
    Kernel → ℕ → Bool → Name → Name → Metadata → Option Ticket → Cache → Cache
seed_entry k now allocated scratch name meta ticket c =
    if not (is_component name) || ltb max_path_bytes (byte_length scratch + byte_length name)
    then c
    else insert_exists k now allocated (scratch ++ name) (some meta) ticket c

-- `for (i = n; i > 0; i--)` over one table of the listing, last entry first.
unfoldable pub seed_children :
    Kernel → Machine → Bool → Name → List Child → Option Ticket → ℕ → Cache → Cache
seed_children k m is_directory scratch children ticket zero c = c
seed_children k m is_directory scratch children ticket (suc i) c =
    seed_children k m is_directory scratch children ticket i (elim (get_elem? children i) [
      | none ↦ c
      | some child ↦
          seed_entry k (m.now i) (m.allocated i) scratch child.name
            (child_metadata is_directory child) ticket c
    ])

abbrev pub min_of : ℕ → ℕ → ℕ
min_of a b = if ltb a b then a else b

-- BlorgPathCacheSeedListing. `scratch_allocated` is the scratch buffer's allocation; the two
-- machines answer the inserts of the subdirectories and of the files.
unfoldable pub seed_listing :
    Kernel → Machine → Machine → Bool → Name → Option Listing → Option Ticket → Cache → Cache
seed_listing k m₁ m₂ scratch_allocated dir listing ticket c =
    let dropped = invalidate_under k dir true c.feed_live c in
    let seeded = λ (l : Listing).
      let files = min_of (length l.files) seed_max in
      let sub_dirs = min_of (length l.sub_dirs) (seed_max - files) in
      seed_children k m₂ false (with_separator dir) l.files ticket files
        (seed_children k m₁ true (with_separator dir) l.sub_dirs ticket sub_dirs dropped) in
    if not c.ready || is_empty dir then c else elim listing [
      | none ↦ dropped
      | some l ↦
          if ltb max_path_bytes (byte_length dir + 2) || not scratch_allocated
          then dropped
          else seeded l
    ]
