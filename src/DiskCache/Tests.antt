-- ===== src/DiskCache/Tests.antt =====
-- Each theorem on the index of src/DiskCacheIndex.c at an input that exercises the code.
use blorg_fs.Prelude.{ℕ, List, [], ◌∷◌, ◌≡◌, ◌≢◌, ◌<◌, refl, true, false, inl, none, some, arith}
use blorg_fs.DiskCache.Types.{Key, Index, disk_cache_first_miss, slot_filling, slot_valid, no_slot}
use blorg_fs.DiskCache.Index.Chain.{find, find_from, mix}
use blorg_fs.DiskCache.Index.Clock.{sweep, victim}
use blorg_fs.DiskCache.Index.Clock.Rounds.{SameButMarks}
use blorg_fs.DiskCache.Index.Clock.Choice.{place, victim-unpinned, victim-fails}
use blorg_fs.DiskCache.Index.Plan.{Plan, plan_read}
use blorg_fs.DiskCache.Index.Plan.Bound.{IsWithin, plan_read-ends}
use blorg_fs.DiskCache.Index.Plan.Balance.{read-balance}
use blorg_fs.DiskCache.Index.Pins.{pin_held, unpin, initialize}
use blorg_fs.DiskCache.Index.Admission.{tag_of, ghost_set, ghost_way, reserve}
use blorg_fs.DiskCache.Index.Admission.Pinned.{reserve-pinned}
use blorg_fs.DiskCache.Index.Admission.SecondMiss.{reserve-twice, IsPushed, answer_of, admission}

abbrev key : Key
key = record { file0 = 11; file1 = 12; size = 70000; modified_time = 5; block = 1 }

abbrev other_key : Key
other_key = record key { block = 2 }

-- An index of one slot, with nothing in it; one whose ghosts hold the key's tag; and one whose slot
-- is being filled.
abbrev empty : Index
empty = (initialize true 1).1

abbrev ghosted : Index
ghosted = record empty { ghosts = λ i. tag_of key }

abbrev busy : Index
busy = record ghosted {
  slots = λ i. record {
    key = other_key;
    next = no_slot;
    pins = 1;
    state = slot_filling;
    referenced = false;
  };
}

victim-unpinned_example :
    ((victim empty).0 < 1)
    × ((empty.slots (victim empty).0).pins ≡ 0)
    × SameButMarks empty (victim empty).1
unfolding initialize victim sweep
victim-unpinned_example =
    victim-unpinned empty (record { hand = omega arith; count = omega arith }) (omega arith)

victim-fails_example : (busy.slots (place 1 0 0)).pins ≢ 0
unfolding initialize victim sweep
victim-fails_example =
    victim-fails busy 0 (record { hand = omega arith; count = omega arith }) refl (omega arith)

reserve-pinned_example :
    (((reserve busy key).2.slots 0).key ≡ other_key)
    × (((reserve busy key).2.slots 0).state ≡ slot_filling)
    × (((reserve busy key).2.slots 0).pins ≡ 1)
unfolding initialize
reserve-pinned_example =
    reserve-pinned busy key 0 (record { hand = omega arith; count = omega arith }) (omega arith)

reserve-twice_example :
    (ghosts : ℕ → ℕ) × (reserve empty key
      ≡ (disk_cache_first_miss, none, record empty { ghosts = ghosts }))
    × IsPushed (ghost_set empty key) (tag_of key) empty.ghosts ghosts
    × (answer_of (reserve (record empty { ghosts = ghosts }) key)
        ≡ admission (victim (record empty { ghosts = ghosts })).0)
unfolding initialize find find_from ghost_way mix
reserve-twice_example = reserve-twice empty key refl refl

-- Three runs of blocks to fetch, with held blocks between them.
abbrev scattered : List ℕ
scattered = no_slot ∷ 4 ∷ no_slot ∷ 5 ∷ 6 ∷ no_slot ∷ []

plan_read-ends_example : (q : Plan) × (plan_read empty scattered 3 2 ≡ some q) × IsWithin 2 6 q
plan_read-ends_example = plan_read-ends empty scattered 3 2 (inl (omega arith)) (omega arith) refl

-- An index whose slot holds the key's block, while another read of it is in flight.
abbrev serving : Index
serving = record empty {
  slots =
      λ i. record { key = key; next = no_slot; pins = 1; state = slot_valid; referenced = false };
  heads = λ i. 0;
}

read-balance_example :
    (q : Plan) × (plan_read
        (pin_held key 3 serving).2
        (pin_held key 3 serving).0
        (pin_held key 3 serving).1
        4
      ≡ some q)
    × (((unpin q.slots true q.index).slots 0).pins ≡ 1)
unfolding initialize
read-balance_example =
    read-balance serving key 3 4 true 0 (omega arith) (omega arith) (inl (omega arith))
