-- ===== src/ChangeFeed/Forgotten.antt =====
-- What a lookup answers after a batch of src/ChangeFeed.c is applied.
use blorg_fs.Prelude.{
  ℕ, zero, suc, ◌≡◌, ◌≢◌, refl, sym, ◌∙◌, subst, true, false, not, ◌||◌, List, [], ◌∷◌, Option,
  none, some, inl, inr, arith, if◌then◌else◌, Bool-cases, is_empty, All, add32, get_elem?,
}
use blorg_fs.PathCache.Kernel.{Name, Kernel, IsDocumented}
use blorg_fs.PathCache.Paths.{bucket_of, is_under}
use blorg_fs.PathCache.Types.{
  PathEntry, Bucket, Cache, Snapshot, Ticket, advance_sequence, snapshot, is_live,
}
use blorg_fs.PathCache.Lookup.{find, first_of_path, answer, miss}
use blorg_fs.PathCache.Lookup.Laws.{first_of_path-Sub}
use blorg_fs.PathCache.Lookup.AfterInvalidate.{
  find-miss, find-off, listing_drop_under-buckets, invalidate-first, invalidate_prefix-first,
}
use blorg_fs.PathCache.Invalidate.{invalidate, invalidate_all}
use blorg_fs.PathCache.Valid.{IsValid}
use blorg_fs.PathCache.Steps.Runs.{
  perform, perform_all, perform_all-IsValid, invalidates, invalidates_prefix,
}
use blorg_fs.ChangeFeed.State.{ChangeEntry, Batch, Feed}
use blorg_fs.ChangeFeed.Apply.{
  is_modified, invalidate_entry, invalidate_entries, is_wholesale, apply,
}
use blorg_fs.ChangeFeed.Live.{
  ready-IsKept, generation-IsKept, invalidate_entry-keeps, invalidate_entries-keeps,
  listing_drop_under-keeps,
}
use blorg_fs.ChangeFeed.Shrinks.{invalidate_entries-Shrinks}

invalidate_entry-IsValid :
    (k : Kernel) (e : ChangeEntry) (c : Cache)
    → IsDocumented k
    → IsValid k c
    → IsValid k (invalidate_entry k e c)
unfolding invalidate_entry perform perform_all
invalidate_entry-IsValid k e c d v = elim (Bool-cases (is_modified e.kind)) [
  | inl p ↦ rw p (perform_all-IsValid k (invalidates e.path ∷ []) c d (tt, tt) v)
  | inr p ↦ rw p (perform_all-IsValid k (invalidates_prefix e.path ∷ []) c d (tt, tt) v)
]

-- The paths that a change is about: its own if it was modified, and everything at or beneath it if
-- it came or went.
abbrev pub Covers : Kernel → ChangeEntry → Name → Type 0
Covers k e path = if is_modified e.kind then path ≡ e.path else is_under k e.path path ≡ true

-- The cache holds nothing for a path.
abbrev IsForgotten : Kernel → Name → Cache → Type 0
IsForgotten k path c = first_of_path k path (c.buckets (bucket_of k path)).list ≡ none

invalidate_entry-forgets :
    (k : Kernel) (e : ChangeEntry) (path : Name) (c : Cache)
    → IsDocumented k
    → IsValid k c
    → not c.ready || is_empty e.path ≡ false
    → Covers k e path
    → IsForgotten k path (invalidate_entry k e c)
unfolding invalidate_entry
invalidate_entry-forgets k e path c d v r = elim (Bool-cases (is_modified e.kind)) [
  | inl p ↦ rw p (λ q.
      subst (λ x. IsForgotten k x (invalidate k e.path c)) (sym q)
        (invalidate-first k d e.path c v r))
  | inr p ↦ rw p (λ u. invalidate_prefix-first k d e.path path c u r)
]

invalidate_entries-forgets :
    (k : Kernel) (es : List ChangeEntry) (i : ℕ) (e : ChangeEntry) (path : Name) (c : Cache)
    → IsDocumented k
    → IsValid k c
    → c.ready ≡ true
    → get_elem? es i ≡ some e
    → is_empty e.path ≡ false
    → Covers k e path
    → IsForgotten k path (invalidate_entries k es c)
unfolding invalidate_entries
invalidate_entries-forgets k [] i e path c d v r g ne h = absurd (cc g)
invalidate_entries-forgets k (x ∷ es) zero e path c d v r g ne h =
    first_of_path-Sub k path
      (invalidate_entries-Shrinks k es (invalidate_entry k x c) (bucket_of k path))
      (invalidate_entry-forgets k x path c d v (ground (arith, same))
        (subst (λ y. Covers k y path) (sym same) h))
  where
    same : x ≡ e
    same = cc g
invalidate_entries-forgets k (x ∷ es) (suc i) e path c d v r g ne h =
    invalidate_entries-forgets k es i e path (invalidate_entry k x c) d
      (invalidate_entry-IsValid k x c d v)
      (invalidate_entry-keeps (λ c'. c'.ready) ready-IsKept k x c ∙ r) g ne h

-- No entry is stamped with the generation that the next flush makes current.
abbrev pub IsBehind : Kernel → Name → Cache → Type 0
IsBehind k path c =
    All (λ e. e.generation ≢ add32 c.generation 1) (c.buckets (bucket_of k path)).list

is_live-behind :
    (e : PathEntry) (s : Snapshot)
    → e.generation ≢ s.generation
    → is_live e s.now s.generation s.lifetime ≡ false
unfolding is_live
is_live-behind e s h = ground arith

answer-dead :
    (s : Snapshot) (asked : Option Ticket) (e : PathEntry)
    → is_live e s.now s.generation s.lifetime ≡ false
    → answer s asked (some e) ≡ miss asked
unfolding answer
answer-dead s asked e p = rw p

answer-behind :
    (k : Kernel) (path : Name) (s : Snapshot) (asked : Option Ticket) (es : List PathEntry)
    → All (λ e. e.generation ≢ s.generation) es
    → answer s asked (first_of_path k path es) ≡ miss asked
unfolding answer first_of_path
answer-behind k path s asked [] h = refl
answer-behind k path s asked (e ∷ es) h = elim (Bool-cases (k.equal e.path path)) [
  | inl p ↦ rw p (answer-dead s asked e dead)
  | inr p ↦ rw p (answer-behind k path s asked es h.1)
]
  where
    dead : is_live e s.now s.generation s.lifetime ≡ false
    dead = is_live-behind e s h.0

flushed-generation :
    (k : Kernel) (c : Cache) → (invalidate_all k c).generation ≡ add32 c.generation 1
unfolding invalidate_all advance_sequence
flushed-generation k c = elim (Bool-cases c.ready) [
  | inl p ↦ rw p (listing_drop_under-keeps (λ c'. c'.generation) generation-IsKept k none _)
  | inr p ↦ rw p refl
]

flushed-buckets : (k : Kernel) (c : Cache) → (invalidate_all k c).buckets ≡ c.buckets
unfolding invalidate_all advance_sequence
flushed-buckets k c = elim (Bool-cases c.ready) [
  | inl p ↦ rw p (listing_drop_under-buckets k none _)
  | inr p ↦ rw p refl
]

-- BlorgPathCacheInvalidateAll makes the next lookup of a path a miss, unless the 32-bit generation
-- has come round to that of an entry still in the path's bucket.
pub find-invalidate_all :
    (k : Kernel) (now : ℕ) (path : Name) (asked : Option Ticket) (c : Cache)
    → IsBehind k path c
    → find k now path asked (invalidate_all k c) ≡ miss asked
unfolding find snapshot
find-invalidate_all k now path asked c h =
    elim (Bool-cases (not (invalidate_all k c).ready || is_empty path)) [
      | inl p ↦ rw p refl
      | inr p ↦ rw p (
          answer-behind k path (snapshot (invalidate_all k c) now) asked _ (
            subst
              (λ g.
                All (λ e. e.generation ≢ g) ((invalidate_all k c).buckets (bucket_of k path)).list)
              (sym (flushed-generation k c))
              (subst
                (λ (f : ℕ → Bucket PathEntry).
                  All (λ e. e.generation ≢ add32 c.generation 1) (f (bucket_of k path)).list)
                (sym (flushed-buckets k c)) h)))
    ]

find-not_ready :
    (k : Kernel) (now : ℕ) (path : Name) (asked : Option Ticket) (c : Cache)
    → c.ready ≡ false
    → find k now path asked c ≡ miss asked
find-not_ready k now path asked c r = find-off k now path asked c (ground arith)

-- After a batch is applied, precisely or wholesale, the next lookup of every path that one of its
-- changes is about is a miss: the path of a modified one, and every path at or beneath one that
-- came or went. The cache satisfies its invariant, the change has a path, and the 32-bit
-- generation has not come round.
pub find-apply :
    (k : Kernel) (now : ℕ) (path : Name) (asked : Option Ticket) (b : Batch) (f : Feed) (i : ℕ)
    (e : ChangeEntry)
    → IsDocumented k
    → IsValid k f.cache
    → IsBehind k path f.cache
    → get_elem? b.entries i ≡ some e
    → is_empty e.path ≡ false
    → Covers k e path
    → find k now path asked (apply k b f).cache ≡ miss asked
unfolding apply
find-apply k now path asked b f i e d v old g ne h = elim (Bool-cases (is_wholesale b.entries)) [
  | inl p ↦ rw p (find-invalidate_all k now path asked f.cache old)
  | inr p ↦ rw p (elim (Bool-cases f.cache.ready) [
    | inl r ↦
        find-miss k now path asked _
          (invalidate_entries-forgets k b.entries i e path f.cache d v r g ne h)
    | inr r ↦
        find-not_ready k now path asked _
          (invalidate_entries-keeps (λ c. c.ready) ready-IsKept k b.entries f.cache ∙ r)
  ])
]
