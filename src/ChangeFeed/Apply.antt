-- ===== src/ChangeFeed/Apply.antt =====
-- What an answer of the change feed does: ChangeFeedNameOffset, ChangeFeedNotify, ChangeFeedApply
-- and BlorgChangeFeedReceive of src/ChangeFeed.c.
use blorg_fs.Prelude.{
  ℕ, suc, ◌*◌, ◌^◌, ◌%◌, Bool, true, false, ◌||◌, not, List, [], ◌∷◌, ◌++◌, Option, none, some,
  length, add64, ltb, ◌==◌, if◌then◌else◌,
}
use blorg_fs.PathCache.Kernel.{Name, Kernel}
use blorg_fs.PathCache.Paths.{scan_back}
use blorg_fs.PathCache.Types.{Cache, byte_length}
use blorg_fs.PathCache.Invalidate.{invalidate, invalidate_prefix, invalidate_all, follow_feed}
use blorg_fs.ChangeFeed.State.{
  ChangeKind, change_modified, change_created, change_removed, ChangeEntry, Batch, names,
  size_and_last_write, added, removed, modified, Report, Feed, precise_structural_max,
}

-- ChangeFeedNameOffset
unfoldable pub name_offset : Name → ℕ
unfolding scan_back
name_offset path =
    let chars = scan_back path (length path) in
    if chars * 2 == byte_length path then 0 else (chars * 2) % 2 ^ 16

-- What ChangeFeedNotify reports of one change.
unfoldable pub report : Name → ℕ → ChangeKind → Report
report path offset change_modified = record {
  path = path;
  name_offset = offset;
  filter = size_and_last_write;
  action = modified;
}
report path offset change_created = record {
  path = path;
  name_offset = offset;
  filter = names;
  action = added;
}
report path offset change_removed = record {
  path = path;
  name_offset = offset;
  filter = names;
  action = removed;
}

-- ChangeFeedNotify: what it reports of a batch, in order. A path that is its own directory is
-- skipped.
unfoldable pub reports_of : List ChangeEntry → List Report
unfolding name_offset report
reports_of [] = []
reports_of (e ∷ es) =
    let rest = reports_of es in
    let offset = name_offset e.path in
    if offset == 0 then rest else report e.path offset e.kind ∷ rest

abbrev pub is_modified : ChangeKind → Bool
is_modified change_modified = true
is_modified change_created = false
is_modified change_removed = false

-- The first loop of ChangeFeedApply: how many paths came or went.
unfoldable pub structural : List ChangeEntry → ℕ
structural [] = 0
structural (e ∷ es) = if is_modified e.kind then structural es else suc (structural es)

-- What one change invalidates.
unfoldable pub invalidate_entry : Kernel → ChangeEntry → Cache → Cache
invalidate_entry k e c =
    if is_modified e.kind then invalidate k e.path c else invalidate_prefix k e.path c

-- The second loop of ChangeFeedApply.
unfoldable pub invalidate_entries : Kernel → List ChangeEntry → Cache → Cache
invalidate_entries k [] c = c
invalidate_entries k (e ∷ es) c = invalidate_entries k es (invalidate_entry k e c)

-- Whether a batch is answered by flushing the whole cache.
unfoldable pub is_wholesale : List ChangeEntry → Bool
unfolding structural
is_wholesale es = ltb precise_structural_max (structural es)

-- ChangeFeedApply
unfoldable pub apply : Kernel → Batch → Feed → Feed
unfolding reports_of
apply k b f =
    let wholesale = is_wholesale b.entries in
    record f {
      cache =
          if wholesale then invalidate_all k f.cache else invalidate_entries k b.entries f.cache;
      statistics = record (f.statistics) {
        flushes = if wholesale then add64 f.statistics.flushes 1 else f.statistics.flushes;
        paths = add64 f.statistics.paths (length b.entries);
      };
      reports = if f.volume then f.reports ++ reports_of b.entries else f.reports;
    }

-- `Batch->Reset || Batch->Epoch != ChangeFeed.Epoch`
abbrev pub is_reset : Batch → Feed → Bool
is_reset b f = b.reset || not (b.epoch == f.epoch)

-- NT_SUCCESS of a status, read as an unsigned 32-bit number.
abbrev pub nt_success : ℕ → Bool
nt_success status = ltb status (2 ^ 31)

-- The failure branch of BlorgChangeFeedReceive.
unfoldable pub receive_failure : Kernel → Feed → Feed
unfolding follow_feed
receive_failure k f = record f {
  epoch = 0;
  since = 0;
  cache = follow_feed k false f.cache;
  statistics = record (f.statistics) { failures = add64 f.statistics.failures 1 };
}

-- The two other branches: what the batch says to forget.
unfoldable pub act_on : Kernel → Batch → Feed → Feed
act_on k b f =
    if is_reset b f
    then record f {
      cache = follow_feed k true f.cache;
      statistics = record (f.statistics) { resets = add64 f.statistics.resets 1 };
    }
    else apply k b f

unfoldable pub receive_batch : Kernel → Batch → Feed → Feed
receive_batch k b f = record (act_on k b f) { epoch = b.epoch; since = b.generation }

-- BlorgChangeFeedReceive
unfoldable pub receive : Kernel → ℕ → Option Batch → Feed → Feed
receive k status none f = receive_failure k f
receive k status (some b) f = if nt_success status then receive_batch k b f else receive_failure k f
