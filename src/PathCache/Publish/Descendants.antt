-- ===== src/PathCache/Publish/Descendants.antt =====
-- BlorgPathCachePublishDescendants of src/PathCache.c.
use blorg_fs.Prelude.{
  ℕ, zero, suc, ◌+◌, Bool, ◌&&◌, ◌||◌, not, List, [], ◌∷◌, ◌++◌, Option, none, some, get_elem?,
  is_empty, ltb, if◌then◌else◌,
}
use blorg_fs.PathCache.Kernel.{Name, Kernel}
use blorg_fs.PathCache.Paths.{is_component}
use blorg_fs.PathCache.Types.{
  Ticket, Listing, Descendant, Cache, max_path_bytes, byte_length, get_sub_dir_entry,
}
use blorg_fs.PathCache.Publish.{Machine, publish_listing}
use blorg_fs.PathCache.Publish.Seed.{with_separator}

-- The listing that a descendant's parent index names.
unfoldable pub parent_listing : Listing → List Descendant → ℕ → Option Listing
parent_listing root ds zero = some root
parent_listing root ds (suc j) = elim (get_elem? ds j) [ none ↦ none | some d ↦ some d.listing ]

-- A descendant's path: its parent's, a separator unless that ends in one, and the name its parent
-- lists. `[]` stands for the NULL buffer of a path that cannot be built. `paths` holds those built
-- so far, the directory's own first.
unfoldable pub descendant_path :
    Bool → Listing → List Descendant → List Name → ℕ → Descendant → Name
unfolding parent_listing with_separator
descendant_path allocated root ds paths i d =
    if ltb i d.parent then [] else elim (get_elem? paths d.parent) [
      | none ↦ []
      | some parent_path ↦ elim (parent_listing root ds d.parent) [
        | none ↦ []
        | some parent ↦ elim (get_sub_dir_entry parent d.sub_dir) [
          | none ↦ []
          | some sub ↦
              if is_empty parent_path
                || not (is_component sub.name)
                || ltb max_path_bytes
                    (byte_length (with_separator parent_path) + byte_length sub.name)
                || not allocated
              then []
              else with_separator parent_path ++ sub.name
        ]
      ]
    ]

-- The loop of BlorgPathCachePublishDescendants from index `i` on, with the descendants left.
unfoldable pub publish_from :
    Kernel
    → Machine
    → (ℕ → Bool)
    → Listing
    → List Descendant
    → Option Ticket
    → List Name
    → ℕ
    → List Descendant
    → Cache
    → ℕ × Cache
publish_from k m buffers root ds ticket paths i [] c = (0, c)
publish_from k m buffers root ds ticket paths i (d ∷ left) c =
    let path = descendant_path (buffers i) root ds paths i d in
    let (current, c') = publish_listing k (m.now i) (m.allocated i) path d.listing ticket c in
    let skip = is_empty path in
    let (published, c'') =
      publish_from k m buffers root ds ticket (paths ++ path ∷ []) (i + 1) left
        (if skip then c else c') in
    (if not skip && current then suc published else published, c'')

-- BlorgPathCachePublishDescendants. `buffers` are the allocations of the paths.
unfoldable pub publish_descendants :
    Kernel
    → Machine
    → (ℕ → Bool)
    → Bool
    → Name
    → Listing
    → List Descendant
    → Option Ticket
    → Cache
    → ℕ × Cache
publish_descendants k m buffers paths_allocated dir root ds ticket c =
    if not c.ready || is_empty dir || is_empty ds || not paths_allocated
    then (0, c)
    else publish_from k m buffers root ds ticket (dir ∷ []) 0 ds c
