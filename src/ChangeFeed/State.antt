-- ===== src/ChangeFeed/State.antt =====
-- The state of src/ChangeFeed.c, and the batches of src/Structs.h that it acts on.
use blorg_fs.Prelude.{ℕ, Bool, List}
use blorg_fs.PathCache.Kernel.{Name}
use blorg_fs.PathCache.Types.{Cache}

-- CHANGE_KIND
pub data ChangeKind : Type 0 where
  change_modified change_created change_removed : ChangeKind

-- CHANGE_ENTRY
pub record ChangeEntry : Type 0 where
  pub path : Name
  pub kind : ChangeKind

-- CHANGE_BATCH
pub record Batch : Type 0 where
  pub epoch : ℕ
  pub generation : ℕ
  pub entries : List ChangeEntry
  pub reset : Bool

-- The filters that a change is reported under: both name filters, or size and last write.
pub data Filter : Type 0 where
  names size_and_last_write : Filter

pub data Action : Type 0 where
  added removed modified : Action

-- One call of FsRtlNotifyFullReportChange.
pub record Report : Type 0 where
  pub path : Name
  pub name_offset : ℕ
  pub filter : Filter
  pub action : Action

-- The counters of src/Statistics.h that the follower adds to.
pub record FeedStatistics : Type 0 where
  pub polls : ℕ
  pub failures : ℕ
  pub resets : ℕ
  pub paths : ℕ
  pub flushes : ℕ

-- CHANGE_FEED_STATE without its events, with the caches, the counters and the reports made so far,
-- oldest first. `thread` and `volume` say whether the pointers are set.
pub record Feed : Type 0 where
  pub thread : Bool
  pub volume : Bool
  pub epoch : ℕ
  pub since : ℕ
  pub backoff_ms : ℕ
  pub cache : Cache
  pub statistics : FeedStatistics
  pub reports : List Report

abbrev pub precise_structural_max : ℕ
precise_structural_max = 64

abbrev pub backoff_min_ms : ℕ
backoff_min_ms = 1000

abbrev pub backoff_max_ms : ℕ
backoff_max_ms = 30000
