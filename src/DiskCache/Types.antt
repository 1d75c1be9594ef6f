-- ===== src/DiskCache/Types.antt =====
-- The state of src/DiskCacheIndex.c, as src/DiskCache.h declares it. An array is a function of the
-- index; what lies past its extent is never read.
use blorg_fs.Prelude.{ℕ, ◌-◌, ◌*◌, ◌^◌, Bool, true, false, ◌&&◌, ◌==◌}

-- DISK_CACHE_KEY
pub record Key : Type 0 where
  pub file0 : ℕ
  pub file1 : ℕ
  pub size : ℕ
  pub modified_time : ℕ
  pub block : ℕ

-- RtlEqualMemory of two keys.
abbrev pub equal_key : Key → Key → Bool
equal_key a b =
    (a.file0 == b.file0)
    && (a.file1 == b.file1)
    && (a.size == b.size)
    && (a.modified_time == b.modified_time)
    && (a.block == b.block)

-- DISK_CACHE_SLOT_STATE
pub data SlotState : Type 0 where
  slot_free slot_filling slot_valid : SlotState

abbrev pub is_free : SlotState → Bool
is_free slot_free = true
is_free slot_filling = false
is_free slot_valid = false

abbrev pub is_valid_state : SlotState → Bool
is_valid_state slot_free = false
is_valid_state slot_filling = false
is_valid_state slot_valid = true

-- DISK_CACHE_SLOT. `pins` is a LONG, of which the code asserts that it never falls below 0.
pub record Slot : Type 0 where
  pub key : Key
  pub next : ℕ
  pub pins : ℕ
  pub state : SlotState
  pub referenced : Bool

-- DISK_CACHE_INDEX, without its lock: each operation holds it throughout, and is one step.
pub record Index : Type 0 where
  pub slots : ℕ → Slot
  pub heads : ℕ → ℕ
  pub ghosts : ℕ → ℕ
  pub slot_count : ℕ
  pub hash_mask : ℕ
  pub hand : ℕ
  pub ghost_mask : ℕ

-- DISK_CACHE_ADMIT
pub data Admit : Type 0 where
  disk_cache_held disk_cache_first_miss disk_cache_no_victim disk_cache_reserved : Admit

abbrev pub no_slot : ℕ
no_slot = 2 ^ 32 - 1

abbrev pub max_slots : ℕ
max_slots = 16384 * 2 ^ (20 - 16)

abbrev pub ghost_ways : ℕ
ghost_ways = 4

abbrev pub clock_reach : ℕ
clock_reach = 256

abbrev pub golden : ℕ
golden = 0x9E3779B97F4A7C15

-- What RtlZeroMemory leaves of a slot.
abbrev pub zero_slot : Slot
zero_slot = record {
  key = record { file0 = 0; file1 = 0; size = 0; modified_time = 0; block = 0 };
  next = 0;
  pins = 0;
  state = slot_free;
  referenced = false;
}
