-- ===== src/DiskCache/Index/Chain.antt =====
-- Hash chains of src/DiskCacheIndex.c: DiskCacheIndexMix, DiskCacheIndexHead, DiskCacheIndexFind
-- and DiskCacheIndexUnlink.
use Prim.Native.Nat.{bit_xor, bit_and}
use blorg_fs.Prelude.{
  ℕ, zero, suc, ◌/◌, ◌^◌, ◌%◌, Option, none, some, update, mul64, ◌==◌, if◌then◌else◌,
}
use blorg_fs.DiskCache.Types.{Key, equal_key, Slot, Index, no_slot, golden}

-- DiskCacheIndexMix
unfoldable pub mix : Key → ℕ
mix k =
    let h₁ = mul64 (bit_xor k.file0 k.file1) golden in
    let h₂ = mul64 (bit_xor h₁ k.size) golden in
    let h₃ = mul64 (bit_xor h₂ k.modified_time) golden in
    let h₄ = mul64 (bit_xor h₃ k.block) golden in bit_xor h₄ (h₄ / 2 ^ 29)

-- DiskCacheIndexHead: the index of a key's chain head.
unfoldable pub chain_of : Index → ℕ → ℕ
chain_of x m = bit_and ((m / 2 ^ 32) % 2 ^ 32) x.hash_mask

-- The `for` loop of DiskCacheIndexFind from one slot on. A chain is no longer than there are slots;
-- on one that runs in a circle, where the code would not end, this answers `no_slot`.
unfoldable pub find_from : Index → Key → ℕ → ℕ → ℕ
find_from x k zero slot = no_slot
find_from x k (suc fuel) slot =
    let rest = find_from x k fuel (x.slots slot).next in
    if slot == no_slot then no_slot else if equal_key (x.slots slot).key k then slot else rest

-- DiskCacheIndexFind
unfoldable pub find : Index → Key → ℕ
unfolding find_from mix chain_of
find x k = find_from x k (suc x.slot_count) (x.heads (chain_of x (mix k)))

-- A PULONG into the index: a chain's head, or a slot's `next`.
pub data Link : Type 0 where
  head_link : ℕ → Link
  next_link : ℕ → Link

abbrev pub read_link : Index → Link → ℕ
read_link x (head_link i) = x.heads i
read_link x (next_link i) = (x.slots i).next

abbrev pub set_slot : Index → ℕ → Slot → Index
set_slot x i s = record x { slots = update x.slots i s }

abbrev pub set_next : Index → ℕ → ℕ → Index
set_next x i slot = set_slot x i (record (x.slots i) { next = slot })

abbrev pub set_link : Index → Link → ℕ → Index
set_link x (head_link i) slot = record x { heads = update x.heads i slot }
set_link x (next_link i) slot = set_next x i slot

-- The `while` loop of DiskCacheIndexUnlink: the link that names the slot. `none`: the walk left the
-- chain, which the code asserts does not happen.
unfoldable pub link_to : Index → ℕ → ℕ → Link → Option Link
link_to x slot zero link = none
link_to x slot (suc fuel) link =
    let rest = link_to x slot fuel (next_link (read_link x link)) in
    if read_link x link == slot
    then some link
    else if read_link x link == no_slot
    then none
    else rest

-- DiskCacheIndexUnlink
unfoldable pub unlink : Index → ℕ → Index
unfolding link_to mix chain_of
unlink x slot =
    elim (link_to x slot (suc x.slot_count) (head_link (chain_of x (mix (x.slots slot).key)))) [
      | none ↦ x
      | some link ↦ set_next (set_link x link (x.slots slot).next) slot no_slot
    ]
