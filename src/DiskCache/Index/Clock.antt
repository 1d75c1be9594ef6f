-- ===== src/DiskCache/Index/Clock.antt =====
-- DiskCacheIndexVictim of src/DiskCacheIndex.c.
pub mod Rounds
pub mod Choice
use blorg_fs.Prelude.{ℕ, zero, suc, ◌+◌, false, ◌&&◌, not, ltb, ◌==◌, if◌then◌else◌}
use blorg_fs.DiskCache.Types.{Index, is_free, no_slot, clock_reach}
use blorg_fs.DiskCache.Index.Chain.{set_slot}

-- The hand's next place.
abbrev pub after : Index → ℕ → ℕ
after x slot = if (slot + 1) == x.slot_count then 0 else slot + 1

-- The mark of a slot that the hand passes is cleared.
abbrev pub unmark : Index → ℕ → Index
unmark x slot = set_slot x slot (record (x.slots slot) { referenced = false })

-- The `for` loop with `left` slots still to look at.
unfoldable pub sweep : ℕ → ℕ → Index → ℕ × Index
sweep zero fallback x = (fallback, x)
sweep (suc left) fallback x =
    let slot = x.hand in
    let moved : Index = record x { hand = after x slot } in
    let entry = x.slots slot in
    let marked = not (is_free entry.state) && entry.referenced in
    let onward =
      sweep left (if marked && entry.pins == 0 && fallback == no_slot then slot else fallback)
        (if marked && entry.pins == 0 then unmark moved slot else moved) in
    if not (entry.pins == 0) then onward else if marked then onward else (slot, moved)

-- DiskCacheIndexVictim
unfoldable pub victim : Index → ℕ × Index
unfolding sweep
victim x = sweep (if ltb x.slot_count clock_reach then x.slot_count else clock_reach) no_slot x
