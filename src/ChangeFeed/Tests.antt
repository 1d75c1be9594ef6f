-- ===== src/ChangeFeed/Tests.antt =====
-- Each theorem on the follower of src/ChangeFeed.c at an input that exercises the code, and runs
-- by evaluation.
use blorg_fs.Prelude.{◌≡◌, refl, true, false, [], ◌∷◌, none, some, arith}
use blorg_fs.PathCache.Paths.{is_under}
use blorg_fs.PathCache.Types.{init}
use blorg_fs.PathCache.Invalidate.{invalidate_all}
use blorg_fs.PathCache.Lookup.{find, miss}
use blorg_fs.PathCache.Steps.Runs.{init-IsValid}
use blorg_fs.PathCache.Tests.Ascii.{ascii, ascii-IsDocumented}
use blorg_fs.PathCache.Tests.Inputs.{movies, movie, movie_upper, blank}
use blorg_fs.ChangeFeed.State.{change_modified, change_removed, Batch, Feed}
use blorg_fs.ChangeFeed.Apply.{apply, is_reset, name_offset, receive, receive_failure}
use blorg_fs.ChangeFeed.Poll.{Reply, poll, follow, start}
use blorg_fs.ChangeFeed.Backoff.{follow-backoff}
use blorg_fs.ChangeFeed.Live.{follow-is_reset}
use blorg_fs.ChangeFeed.Forgotten.{find-apply, find-invalidate_all}

abbrev idle : Feed
idle = record {
  thread = false;
  volume = false;
  epoch = 7;
  since = 9;
  backoff_ms = 0;
  cache = init blank;
  statistics = record { polls = 0; failures = 0; resets = 0; paths = 0; flushes = 0 };
  reports = [];
}

abbrev batch : Batch
batch = record {
  epoch = 7;
  generation = 10;
  entries =
      record { path = movie; kind = change_modified }
      ∷ record { path = movies; kind = change_removed }
      ∷ [];
  reset = false;
}

-- An answer, and a server that does not answer.
abbrev answered : Reply
answered = record { issued = 0x103; status = 0; batch = some batch }

abbrev refused : Reply
refused = record { issued = 0xC0000001; status = 0; batch = none }

follow-backoff_example :
    (follow ascii (answered ∷ refused ∷ refused ∷ refused ∷ []) idle).backoff_ms ≡ 4000
follow-backoff_example =
    follow-backoff ascii (answered ∷ refused ∷ refused ∷ refused ∷ []) 0 idle refl

follow-is_reset_example : is_reset batch (follow ascii (refused ∷ []) (start true true idle)) ≡ true
unfolding follow start poll receive receive_failure
follow-is_reset_example =
    follow-is_reset ascii true (refused ∷ []) batch idle refl (omega arith) refl

find-invalidate_all_example :
    find ascii 30 movie none (invalidate_all ascii (init blank)) ≡ miss none
unfolding init
find-invalidate_all_example = find-invalidate_all ascii 30 movie none (init blank) tt

find-apply_example : find ascii 30 movie_upper none (apply ascii batch idle).cache ≡ miss none
unfolding init is_under
find-apply_example =
    find-apply ascii 30 movie_upper none batch idle 1
      (record { path = movies; kind = change_removed }) ascii-IsDocumented
      (init-IsValid ascii blank) tt refl refl refl

name_offset_test : name_offset movie ≡ 16
unfolding name_offset
name_offset_test = refl
