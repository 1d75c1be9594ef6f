-- ===== src/ChangeFeed/Poll.antt =====
-- One poll after another, and the start and stop of the follower: BlorgChangeFeedPoll,
-- ChangeFeedThread, BlorgChangeFeedStart and BlorgChangeFeedStop of src/ChangeFeed.c.
use blorg_fs.Prelude.{
  ℕ, Bool, false, ◌||◌, not, List, [], ◌∷◌, Option, none, add64, mul32, ltb, ◌==◌, if◌then◌else◌,
}
use blorg_fs.PathCache.Kernel.{Kernel}
use blorg_fs.PathCache.Invalidate.{follow_feed}
use blorg_fs.ChangeFeed.State.{Batch, Feed, backoff_min_ms, backoff_max_ms}
use blorg_fs.ChangeFeed.Apply.{receive, nt_success}

abbrev pub status_pending : ℕ
status_pending = 0x103

-- What one request for changes gives: the status it is issued with and, when that is pending, what
-- its completion hands over (ChangeFeedOnAnswer).
pub record Reply : Type 0 where
  pub issued : ℕ
  pub status : ℕ
  pub batch : Option Batch

-- The status and the batch that BlorgChangeFeedPoll acts on.
abbrev pub outcome_status : Reply → ℕ
outcome_status r = if r.issued == status_pending then r.status else r.issued

abbrev pub outcome_batch : Reply → Option Batch
outcome_batch r = if r.issued == status_pending then r.batch else none

-- The wait after a failed poll.
unfoldable pub next_backoff : ℕ → ℕ
next_backoff ms =
    let doubled = mul32 ms 2 in
    if ms == 0
    then backoff_min_ms
    else if ltb backoff_max_ms doubled
    then backoff_max_ms
    else doubled

-- BlorgChangeFeedPoll; it returns the new `backoff_ms`.
unfoldable pub poll : Kernel → Reply → Feed → Feed
unfolding next_backoff
poll k r f =
    let asked = record f {
      statistics = record (f.statistics) { polls = add64 f.statistics.polls 1 };
    } in
    let received = receive k (outcome_status r) (outcome_batch r) asked in
    record received {
      backoff_ms = if nt_success (outcome_status r) then 0 else next_backoff f.backoff_ms;
    }

-- ChangeFeedThread until it is stopped: the replies it gets.
unfoldable pub follow : Kernel → List Reply → Feed → Feed
follow k [] f = f
follow k (r ∷ rs) f = follow k rs (poll k r f)

-- BlorgChangeFeedStart: whether following is configured, and whether the thread is created.
unfoldable pub start : Bool → Bool → Feed → Feed
start configured created f =
    if not configured || f.thread
    then f
    else record f { thread = created; volume = created; epoch = 0; since = 0; backoff_ms = 0 }

-- BlorgChangeFeedStop
unfoldable pub stop : Kernel → Feed → Feed
unfolding follow_feed
stop k f = record f { thread = false; volume = false; cache = follow_feed k false f.cache }
