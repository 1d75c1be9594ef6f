-- ===== src/DiskCache/Index/Pins.antt =====
-- BlorgDiskCacheIndexInitialize, Cleanup, PinHeld, Unpin and PlanRead of src/DiskCacheIndex.c.
use blorg_fs.Prelude.{
  ℕ, zero, suc, ◌+◌, ◌-◌, ◌*◌, ◌/◌, Bool, true, false, ◌&&◌, ◌||◌, not, List, [], ◌∷◌, ltb, ◌==◌,
  add64, if◌then◌else◌,
}
use blorg_fs.DiskCache.Types.{Key, zero_slot, Index, is_valid_state, no_slot, max_slots}
use blorg_fs.DiskCache.Index.Chain.{find, set_slot}

-- The `while` loop of BlorgDiskCacheIndexInitialize.
unfoldable pub grow_heads : ℕ → ℕ → ℕ → ℕ
grow_heads slot_count zero heads = heads
grow_heads slot_count (suc fuel) heads =
    let rest = grow_heads slot_count fuel (heads * 2) in
    if ltb heads slot_count then rest else heads

abbrev pub zeroed : Index
zeroed = record {
  slots = λ i. zero_slot;
  heads = λ i. 0;
  ghosts = λ i. 0;
  slot_count = 0;
  hash_mask = 0;
  hand = 0;
  ghost_mask = 0;
}

-- BlorgDiskCacheIndexInitialize, and whether it succeeds. `allocated` says whether the three
-- allocations do. 32 rounds of doubling pass every slot count that it accepts.
unfoldable pub initialize : Bool → ℕ → Bool × Index
unfolding grow_heads
initialize allocated slot_count =
    let heads = grow_heads slot_count 32 1 in
    let sets = if ltb 1 heads then heads / 2 else 1 in
    if slot_count == 0 || ltb max_slots slot_count || not allocated then (false, zeroed) else (
      true,
      record zeroed {
        slots = λ i. record zero_slot { next = no_slot };
        heads = λ i. no_slot;
        slot_count = slot_count;
        hash_mask = heads - 1;
        ghost_mask = sets - 1;
      },
    )

-- BlorgDiskCacheIndexCleanup. The arrays are freed; the empty index has no slot to read.
unfoldable pub cleanup : Index → Index
cleanup x = record x { slot_count = 0 }

abbrev pub pin : Index → ℕ → Index
pin x slot = set_slot x slot (record (x.slots slot) { pins = (x.slots slot).pins + 1 })

-- Whether a block's slot can be served.
abbrev pub is_held : Index → ℕ → Bool
is_held x slot = not (slot == no_slot) && is_valid_state (x.slots slot).state

-- The loop of BlorgDiskCacheIndexPinHeld over the blocks from the key's on: the slot of each, or
-- `no_slot`, and how many are pinned.
unfoldable pub pin_blocks : Key → ℕ → Index → List ℕ × ℕ × Index
unfolding find
pin_blocks k zero x = ([], 0, x)
pin_blocks k (suc blocks) x =
    let slot = find x k in
    let held = is_held x slot in
    let (slots, pinned, x') =
      pin_blocks (record k { block = add64 k.block 1 }) blocks (if held then pin x slot else x) in
    ((if held then slot else no_slot) ∷ slots, (if held then pinned + 1 else pinned), x')

-- BlorgDiskCacheIndexPinHeld, for a last block below 2 ^ 64 - 1: the code's loop would not pass the
-- last 64-bit number.
unfoldable pub pin_held : Key → ℕ → Index → List ℕ × ℕ × Index
pin_held k last_block x = pin_blocks k (last_block + 1 - k.block) x

abbrev pub unpin_one : Index → ℕ → Bool → Index
unpin_one x slot served = set_slot x slot (record (x.slots slot) {
  pins = (x.slots slot).pins - 1;
  referenced = served || (x.slots slot).referenced;
})

-- BlorgDiskCacheIndexUnpin
unfoldable pub unpin : List ℕ → Bool → Index → Index
unpin [] served x = x
unpin (slot ∷ slots) served x =
    unpin slots served (if slot == no_slot then x else unpin_one x slot served)
