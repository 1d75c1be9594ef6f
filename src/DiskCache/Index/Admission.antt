-- ===== src/DiskCache/Index/Admission.antt =====
-- BlorgDiskCacheIndexReserve and BlorgDiskCacheIndexCommit of src/DiskCacheIndex.c.
pub mod Pinned
pub mod Reserved
pub mod SecondMiss
use Prim.Native.Nat.{bit_and, bit_or}
use blorg_fs.Prelude.{
  ℕ, zero, suc, ◌+◌, ◌-◌, ◌*◌, ◌^◌, ◌%◌, Bool, false, not, Option, none, some, update, ◌==◌,
  if◌then◌else◌,
}
use blorg_fs.DiskCache.Types.{
  Key, Slot, slot_free, slot_filling, slot_valid, is_free, Index, Admit, disk_cache_held,
  disk_cache_first_miss, disk_cache_no_victim, disk_cache_reserved, no_slot, ghost_ways,
}
use blorg_fs.DiskCache.Index.Chain.{mix, chain_of, find, unlink, set_slot}
use blorg_fs.DiskCache.Index.Clock.{victim}

-- `mix | 1`
abbrev pub tag_of : Key → ℕ
tag_of k = bit_or (mix k) 1

-- `ghosts`: where a key's set begins.
unfoldable pub ghost_set : Index → Key → ℕ
ghost_set x k = bit_and (mix k % 2 ^ 32) x.ghost_mask * ghost_ways

-- The `while` loop over the `left` last ways of a set: the first that holds the tag, or
-- `ghost_ways`.
unfoldable pub ghost_way : Index → ℕ → ℕ → ℕ → ℕ
ghost_way x set tag zero = ghost_ways
ghost_way x set tag (suc left) =
    let way = ghost_ways - suc left in
    let rest = ghost_way x set tag left in if x.ghosts (set + way) == tag then way else rest

-- RtlMoveMemory and the new tag: newest first, the oldest falls out.
abbrev pub push_ghost : ℕ → ℕ → (ℕ → ℕ) → ℕ → ℕ
push_ghost set tag ghosts =
    update
      (update (update (update ghosts (set + 3) (ghosts (set + 2))) (set + 2) (ghosts (set + 1)))
        (set + 1) (ghosts set))
      set tag

-- The victim becomes the key's: out of the chain it was in, and at the head of the key's.
unfoldable pub take_slot : Index → Key → ℕ → Index
unfolding unlink chain_of
take_slot x k slot =
    let c = chain_of x (mix k) in
    let free : Index = if is_free (x.slots slot).state then x else unlink x slot in
    let taken : Slot = record {
      key = k;
      next = free.heads c;
      pins = 1;
      state = slot_filling;
      referenced = false;
    } in
    record (set_slot free slot taken) { heads = update free.heads c slot }

-- BlorgDiskCacheIndexReserve: its answer, the slot that it writes (`none`: not written), and the
-- index.
unfoldable pub reserve : Index → Key → Admit × Option ℕ × Index
unfolding find victim ghost_set ghost_way take_slot
reserve x k =
    let set = ghost_set x k in
    let way = ghost_way x set (tag_of k) ghost_ways in
    let (slot, x') = victim x in
    let taken = take_slot x' k slot in
    if not (find x k == no_slot)
    then (disk_cache_held, none, x)
    else if way == ghost_ways
    then (disk_cache_first_miss, none, record x { ghosts = push_ghost set (tag_of k) x.ghosts })
    else if slot == no_slot
    then (disk_cache_no_victim, none, x')
    else (
      disk_cache_reserved,
      some slot,
      record taken { ghosts = update taken.ghosts (set + way) 0 },
    )

-- BlorgDiskCacheIndexCommit
unfoldable pub commit : Index → ℕ → Bool → Index
unfolding unlink
commit x slot written =
    let x' = if written then x else unlink x slot in
    set_slot x' slot (record (x'.slots slot) {
      state = if written then slot_valid else slot_free;
      pins = (x'.slots slot).pins - 1;
    })
