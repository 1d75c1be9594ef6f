-- ===== src/PathCache/Valid/Replace.antt =====
-- The entry that a newly published listing replaces: `existing` and the list without it.
use blorg_fs.Prelude.{
  ℕ, suc, ◌+◌, ◌≡◌, true, false, List, [], ◌∷◌, none, some, inl, inr, arith, length, All, sum_of,
  subst, ◌∙◌, Sub, done, keep, skip, Sub-refl, Bool-cases, Option-cases,
}
use blorg_fs.PathCache.Kernel.{Name, Kernel, IsDocumented}
use blorg_fs.PathCache.Kernel.Laws.{equal_both}
use blorg_fs.PathCache.Types.{ListingEntry, Charges}
use blorg_fs.PathCache.Publish.{last_of_path, without_last, drop_existing}
use blorg_fs.PathCache.Valid.{Distinct, listing_paths_of}
use blorg_fs.PathCache.Valid.ListingBuckets.{Released, Covers, Released-refl, Released-existing}

module _ (k : Kernel) (dir : Name) where
  without_last-Sub : (es : List ListingEntry) → Sub ListingEntry (without_last k dir es) es
  unfolding without_last
  without_last-Sub [] = done
  without_last-Sub (e ∷ es) = elim (Option-cases (last_of_path k dir es)) [
    | inl p ↦ elim (Bool-cases (k.equal e.path dir)) [
      | inl q ↦ rw (p, without_last, q) (skip (Sub-refl es))
      | inr q ↦ rw (p, without_last, q) (keep (without_last-Sub es))
    ]
    | inr (x, p) ↦ rw (p, without_last) (keep (without_last-Sub es))
  ]

  -- A sum over the list is the sum over what is left and the replaced entry's term.
  sum_of-without_last :
      (f : ListingEntry → ℕ) (es : List ListingEntry) (x : ListingEntry)
      → last_of_path k dir es ≡ some x
      → sum_of f (without_last k dir es) + f x ≡ sum_of f es
  unfolding last_of_path without_last
  sum_of-without_last f [] x h = absurd (cc)
  sum_of-without_last f (e ∷ es) x h = ground (arith, sum_of-without_last f es x)

  last_of_path-none :
      (es : List ListingEntry)
      → last_of_path k dir es ≡ none
      → All (λ p. k.equal p dir ≡ false) (listing_paths_of es)
  unfolding last_of_path
  last_of_path-none [] h = tt
  last_of_path-none (e ∷ es) h = ground (arith, last_of_path-none es)

  last_of_path-All {κ} :
      (P : Name → Type κ) (es : List ListingEntry) (x : ListingEntry)
      → last_of_path k dir es ≡ some x
      → All P (listing_paths_of es)
      → P x.path × (k.equal x.path dir ≡ true)
  unfolding last_of_path
  last_of_path-All P [] x h a = absurd (cc)
  last_of_path-All P (e ∷ es) x h a = elim (Option-cases (last_of_path k dir es)) [
    | inl p ↦ elim (Bool-cases (k.equal e.path dir)) [
      | inl q ↦
          let same : e ≡ x = ground arith in
          subst (λ (y : ListingEntry). P y.path × (k.equal y.path dir ≡ true)) same (a.0, q)
      | inr q ↦ absurd (ground arith)
    ]
    | inr (y, p) ↦ last_of_path-All P es x (p ∙ rw (p, last_of_path) at h) a.1
  ]

  length-without_last :
      (es : List ListingEntry) (x : ListingEntry)
      → last_of_path k dir es ≡ some x
      → suc (length (without_last k dir es)) ≡ length es
  unfolding last_of_path without_last
  length-without_last [] x h = absurd (cc)
  length-without_last (e ∷ es) x h = ground (arith, length-without_last es x)

  module _ (d : IsDocumented k) where
    -- With distinct paths, no entry of the directory is left.
    pub without_last-ne :
        (es : List ListingEntry) (x : ListingEntry)
        → last_of_path k dir es ≡ some x
        → Distinct k (listing_paths_of es)
        → All (λ p. k.equal p dir ≡ false) (listing_paths_of (without_last k dir es))
    unfolding last_of_path without_last
    without_last-ne [] x h u = absurd (cc)
    without_last-ne (e ∷ es) x h u = elim (Option-cases (last_of_path k dir es)) [
      | inl p ↦ elim (Bool-cases (k.equal e.path dir)) [
        | inl q ↦ rw (p, without_last, q) (last_of_path-none es p)
        | inr q ↦ absurd (ground arith)
      ]
      | inr (y, p) ↦
          let (apart, same) = last_of_path-All (λ r. k.equal e.path r ≡ false) es y p u.0 in
          rw (p, without_last)
            (elim (Bool-cases (k.equal e.path dir)) [
              | inl q ↦ absurd (cc (equal_both k d e.path y.path dir q same))
              | inr q ↦ (q, without_last-ne es y p u.1)
            ])
    ]

    -- What a publish replaces leaves with its charges, and no entry of the directory stays.
    pub drop_existing_lem :
        (es : List ListingEntry) (n : Charges)
        → Covers es n
        → Distinct k (listing_paths_of es)
        → let (es', n') = drop_existing k dir (last_of_path k dir es) es n in
          Released es n es' n' × All (λ p. k.equal p dir ≡ false) (listing_paths_of es')
    unfolding drop_existing
    drop_existing_lem es n c u = elim (Option-cases (last_of_path k dir es)) [
      | inl p ↦ rw p (Released-refl es n, last_of_path-none es p)
      | inr (x, p) ↦ rw p (
        Released-existing x c (without_last-Sub es) (λ f. sum_of-without_last f es x p)
            (length-without_last es x p),
        without_last-ne es x p u,
      )
    ]
