-- ===== src/PathCache/Tests/Inputs.antt =====
-- Inputs of the tests: paths, tickets, listings and a cache just initialised.
use Prim.Native.Char.{code}
use Prim.Native.String.{String}
use blorg_fs.Prelude.{true, false, List, [], ◌∷◌, none, some}
use blorg_fs.PathCache.Kernel.{Name}
use blorg_fs.PathCache.Types.{
  Metadata, zero_metadata, Ticket, Child, Listing, Descendant, Cache, Snapshot, ttl,
}
use blorg_fs.PathCache.Publish.{Machine}
use blorg_fs.PathCache.Steps.Runs.{
  Call, inserts_path, looks_up_listing, invalidates, invalidates_prefix, invalidates_all,
  follows_feed, publishes_listing, seeds_listing, publishes_descendants,
}

-- The code points of an ASCII text.
abbrev pub codes : String → Name
codes String.[] = []
codes (String.◌∷◌ c s) = code c ∷ codes s

abbrev pub movies : Name
movies = codes "\\Movies"

abbrev pub movie : Name
movie = codes "\\Movies\\a.mkv"

-- The same in another case.
abbrev pub movie_upper : Name
movie_upper = codes "\\MOVIES\\A.MKV"

-- What the state holds before it is initialised.
abbrev pub blank : Cache
blank = record {
  buckets = λ b. record { list = []; count = 7 };
  listing_buckets = λ b. record { list = []; count = 7 };
  sequence = 3;
  listing_bytes = 9;
  ready = false;
  generation = 4;
  count = 2;
  feed_live = false;
  references = λ id. 1;
}

abbrev pub found : Metadata
found = record zero_metadata { size = 700; last_modified_time = 12 }

-- A ticket taken of the initialised cache at time 5.
abbrev pub early : Ticket
early = record { sequence = 0; issue_time = 5 }

abbrev pub at_ten : Snapshot
at_ten = record { now = 10; generation = 0; lifetime = ttl }

abbrev pub file : Child
file = record {
  name = codes "a.mkv";
  size = 700;
  creation_time = 1;
  last_accessed_time = 2;
  last_modified_time = 3;
}

abbrev pub season : Child
season = record file { name = codes "s1"; size = 0 }

abbrev pub listed : Listing
listed = record {
  id = 1;
  files = file ∷ [];
  sub_dirs = season ∷ [];
  bytes = 4096;
  no_store = false;
}

abbrev pub child_listed : Listing
child_listed = record { id = 2; files = []; sub_dirs = []; bytes = 512; no_store = false }

abbrev pub below : Descendant
below = record { listing = child_listed; parent = 0; sub_dir = 0 }

abbrev pub machine : Machine
machine = record { now = λ i. 20; allocated = λ i. true }

-- Every entry point once.
abbrev pub script : List Call
script =
    inserts_path 6 true movie true (some found) (some early)
    ∷ publishes_listing 7 true movies listed (some early)
    ∷ seeds_listing machine machine true movies (some listed) (some early)
    ∷ publishes_descendants machine (λ i. true) true movies listed (below ∷ []) (some early)
    ∷ looks_up_listing 9 movies true none
    ∷ invalidates movie
    ∷ invalidates_prefix movies
    ∷ invalidates_all
    ∷ follows_feed true
    ∷ []
