-- ===== src/PathCache/Steps/Race.antt =====
-- The ticket protocol of BlorgPathCacheTakeTicket: no result read before an invalidation survives
-- it, however the critical sections of the threads interleave.
use blorg_fs.Prelude.{
  ℕ, ◌+◌, ◌%◌, ◌^◌, ◌≤◌, ◌<◌, ◌≡◌, ◌≢◌, refl, sym, subst, Bool, true, false, List, [], ◌∷◌, inl,
  inr, arith, All, All-map, All-every, update_self, Bool-cases, ℕ_discrete,
}
use blorg_fs.PathCache.Kernel.{Name, Kernel, IsDocumented}
use blorg_fs.PathCache.Kernel.Laws.{equal_false}
use blorg_fs.PathCache.Paths.{bucket_of, is_under}
use blorg_fs.PathCache.Types.{
  PathEntry, Bucket, Cache, Counts, take_ticket, advance_sequence, drop_count,
}
use blorg_fs.PathCache.Insert.{put_bucket, counts_of}
use blorg_fs.PathCache.Invalidate.{invalidate_locked, sweep_bucket, drop_path, sweep, is_swept}
use blorg_fs.PathCache.Valid.{IsValid, Distinct, paths_of}
use blorg_fs.PathCache.Valid.Put.{same_IsValid}
use blorg_fs.PathCache.Steps.{Run}
use blorg_fs.PathCache.Steps.Valid.{Run-IsValid}
use blorg_fs.PathCache.Steps.Kept.{Run-All, Run-sequence}

-- Once a bucket is free of a test's entries, entries of a sequence that does not come again stay
-- out of it.
stays_out :
    (k : Kernel) (test : PathEntry → Bool) (b s : ℕ) {n : ℕ} {c c' : Cache}
    → Run k n c c'
    → All (λ e. test e ≡ false) (c.buckets b).list
    → c.sequence < 2 ^ 64
    → ((m : ℕ) → m ≤ n → (c.sequence + m) % 2 ^ 64 ≢ s)
    → All (λ e. test e ≡ true → e.sequence ≢ s) (c'.buckets b).list
stays_out k test b s {n} {c} {c'} r free lt h =
    All-map (P b) (λ e. test e ≡ true → e.sequence ≢ s) (c'.buckets b).list (λ e q. q refl)
      (Run-All P k r (λ m e le q i _ _ eq. h m le (cc)) lt start b)
  where
    P : ℕ → PathEntry → Type 0
    P i e = i ≡ b → test e ≡ true → e.sequence ≢ s

    start : (i : ℕ) → All (P i) (c.buckets i).list
    start i = elim (ℕ_discrete i b) [
      | yes e ↦
          subst (λ j. All (P i) (c.buckets j).list) (sym e)
            (All-map (λ x. test x ≡ false) (P i) (c.buckets b).list (λ x q _ p. absurd (cc)) free)
      | no ne ↦ All-every (P i) (λ x e. absurd (ne e)) (c.buckets i).list
    ]

All-paths : (P : Name → Type 0) (es : List PathEntry) → All P (paths_of es) → All (λ e. P e.path) es
All-paths P [] a = tt
All-paths P (e ∷ es) a = (a.0, All-paths P es a.1)

pub drop_path-ne :
    (k : Kernel)
    → IsDocumented k
    → (path : Name) (es : List PathEntry) (n : Counts) → Distinct k (paths_of es)
    → All (λ e. k.equal e.path path ≡ false) (drop_path k path es n).0
unfolding drop_path
drop_path-ne k d path [] n u = tt
drop_path-ne k d path (e ∷ es) n u = elim (Bool-cases (k.equal e.path path)) [
  | inl p ↦ rw p (
      All-map (λ x. k.equal e.path x.path ≡ false) (λ x. k.equal x.path path ≡ false) es
        (λ x q. equal_false k d e.path x.path path q p)
        (All-paths (λ q. k.equal e.path q ≡ false) es u.0))
  | inr p ↦ rw p (p, drop_path-ne k d path es n u.1)
]

pub sweep-ne :
    (test : PathEntry → Bool) (es : List PathEntry) (n : Counts)
    → All (λ e. test e ≡ false) (sweep test es n).0
unfolding sweep
sweep-ne test [] n = tt
sweep-ne test (e ∷ es) n = elim (Bool-cases (test e)) [
  | inl p ↦ rw p (sweep-ne test es (drop_count n))
  | inr p ↦ rw p (p, sweep-ne test es n)
]

-- The sequence after an advance, `n₁` advances before it, `n₂` and up to `n₃` after it.
pub not_back :
    (k : Kernel) {n₁ n₂ n₃ : ℕ} {c₀ c₁ c₂ : Cache}
    → c₀.sequence < 2 ^ 64
    → Run k n₁ c₀ c₁
    → Run k n₂ (advance_sequence c₁) c₂
    → n₁ + n₂ + n₃ + 1 < 2 ^ 64
    → (c₂.sequence < 2 ^ 64) × ((m : ℕ) → m ≤ n₃ → (c₂.sequence + m) % 2 ^ 64 ≢ c₀.sequence)
unfolding advance_sequence
not_back k {n₁} {n₂} {n₃} {c₀} {c₁} {c₂} lt r₁ r₂ few =
    let e₁ = Run-sequence k r₁ lt in
    let e₂ = Run-sequence k r₂ (omega arith) in
    (omega (arith, e₁, e₂), λ m le. omega (arith, e₁, e₂))

-- BlorgPathCacheInvalidate of a path advances the sequence and then, under the bucket's lock, drops
-- the path's entry. However the critical sections of other threads interleave before the advance,
-- between the two and afterwards, the bucket then holds no entry for the path with the sequence of
-- a ticket taken before the advance, if fewer than 2 ^ 64 invalidations run in all.
pub invalidated_path_stays_out :
    (k : Kernel) (path : Name) (now : ℕ) {n₁ n₂ n₃ : ℕ} {c₀ c₁ c₂ c₃ : Cache}
    → IsDocumented k
    → IsValid k c₀
    → c₀.sequence < 2 ^ 64
    → Run k n₁ c₀ c₁
    → Run k n₂ (advance_sequence c₁) c₂
    → Run k n₃ (invalidate_locked k path c₂) c₃
    → n₁ + n₂ + n₃ + 1 < 2 ^ 64
    → All
        (λ e. k.equal e.path path ≡ true → e.sequence ≢ (take_ticket c₀ now).sequence)
        (c₃.buckets (bucket_of k path)).list
unfolding invalidate_locked put_bucket take_ticket advance_sequence
invalidated_path_stays_out k path now {n₁} {n₂} {n₃} {c₀} {c₁} {c₂} d v lt r₁ r₂ r₃ few =
    let back = not_back k {n₃ = n₃} lt r₁ r₂ few in
    let valid = Run-IsValid k d r₂ (same_IsValid (Run-IsValid k d r₁ v)) in
    stays_out k (λ e. k.equal e.path path) b c₀.sequence r₃
      (subst (λ (x : Bucket PathEntry). All (λ e. k.equal e.path path ≡ false) x.list)
        (sym (update_self c₂.buckets b _))
        (drop_path-ne k d path (c₂.buckets b).list (counts_of c₂ b) (valid.path_home b).distinct))
      back.0 back.1
  where
    b : ℕ
    b = bucket_of k path

-- BlorgPathCacheInvalidatePrefix advances the sequence and then sweeps the buckets, one lock at a
-- time. However the critical sections of other threads interleave before the advance, before the
-- sweep of a bucket and afterwards, the bucket then holds no entry at or beneath the directory with
-- the sequence of a ticket taken before the advance, if fewer than 2 ^ 64 invalidations run in all.
pub invalidated_prefix_stays_out :
    (k : Kernel) (dir : Name) (b now : ℕ) {n₁ n₂ n₃ : ℕ} {c₀ c₁ c₂ c₃ : Cache}
    → c₀.sequence < 2 ^ 64
    → Run k n₁ c₀ c₁
    → Run k n₂ (advance_sequence c₁) c₂
    → Run k n₃ (sweep_bucket k dir false false b c₂) c₃
    → n₁ + n₂ + n₃ + 1 < 2 ^ 64
    → All
        (λ e. is_under k dir e.path ≡ true → e.sequence ≢ (take_ticket c₀ now).sequence)
        (c₃.buckets b).list
unfolding sweep_bucket put_bucket take_ticket advance_sequence is_swept
invalidated_prefix_stays_out k dir b now {n₁} {n₂} {n₃} {c₀} {c₁} {c₂} lt r₁ r₂ r₃ few =
    let back = not_back k {n₃ = n₃} lt r₁ r₂ few in
    stays_out k (λ e. is_under k dir e.path) b c₀.sequence r₃
      (subst (λ (x : Bucket PathEntry). All (λ e. is_under k dir e.path ≡ false) x.list)
        (sym (update_self c₂.buckets b _))
        (All-map (λ e. is_swept k dir false false e ≡ false) (λ e. is_under k dir e.path ≡ false) _
          (λ e q. ground arith)
          (sweep-ne (is_swept k dir false false) (c₂.buckets b).list (counts_of c₂ b))))
      back.0 back.1
