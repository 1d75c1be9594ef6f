-- ===== src/DiskCache/Index/Admission/Reserved.antt =====
-- What BlorgDiskCacheIndexReserve of src/DiskCacheIndex.c sets up when it reserves a slot, and when
-- it does.
use blorg_fs.Prelude.{ℕ, zero, suc, ◌+◌, ◌≡◌, ◌≢◌, refl, some, update}
use blorg_fs.DiskCache.Types.{Key, Index, no_slot, ghost_ways}
use blorg_fs.DiskCache.Index.Chain.{chain_of, find_from, find}
use blorg_fs.DiskCache.Index.Clock.{victim}
use blorg_fs.DiskCache.Index.Admission.{tag_of, ghost_set, ghost_way, take_slot, reserve}

-- Looking a key up reads nothing of the ghosts.
find_from-ghosts :
    (x : Index) (ghosts : ℕ → ℕ) (k : Key) (fuel slot : ℕ)
    → find_from (record x { ghosts = ghosts }) k fuel slot ≡ find_from x k fuel slot
unfolding find_from
find_from-ghosts x ghosts k zero slot = refl
find_from-ghosts x ghosts k (suc fuel) slot =
    rw (find_from-ghosts x ghosts k fuel (x.slots slot).next) refl

pub find-ghosts :
    (x : Index) (ghosts : ℕ → ℕ) (k : Key) → find (record x { ghosts = ghosts }) k ≡ find x k
unfolding find chain_of
find-ghosts x ghosts k = find_from-ghosts x ghosts k (suc x.slot_count) _

-- What a reservation leaves: nothing was found for the key, its tag was in the ghost table, and the
-- victim is taken.
record Taken (x : Index) (k : Key) : Type 0 where
  pub absent : find x k ≡ no_slot
  pub second_miss : ghost_way x (ghost_set x k) (tag_of k) ghost_ways ≢ ghost_ways
  pub victim_found : (victim x).0 ≢ no_slot
  pub written : (reserve x k).1 ≡ some ((victim x).0)
  pub left : (reserve x k).2 ≡ record (take_slot (victim x).1 k (victim x).0) {
    ghosts =
        update
          (take_slot (victim x).1 k (victim x).0).ghosts
          (ghost_set x k + ghost_way x (ghost_set x k) (tag_of k) ghost_ways)
          0;
  }
