-- ===== src/PathCache/Paths/Under.antt =====
-- PathCacheIsUnder of src/PathCache.c against a description of paths by their parts.
use mathlib.Core.List.{append-nil}
use blorg_fs.Prelude.{
  ℕ, zero, suc, ◌+◌, ◌-◌, ◌≡◌, refl, sym, ap, ◌∙◌, subst, Bool, true, false, ◌||◌, not, [], ◌∷◌,
  ◌++◌, inl, inr, ◌↔◌, arith, length, length-append, ltb, ◌==◌, if◌then◌else◌, Bool-cases, ==_iff,
}
use blorg_fs.PathCache.Kernel.{Name, separator, Kernel, IsDocumented, fold_case}
use blorg_fs.PathCache.Paths.{separator_at, ends_with_separator, is_under}

-- Whether the upper-case form has the separator somewhere tells whether the path has it there.
separator_at-fold :
    (k : Kernel)
    → IsDocumented k
    → (path : Name) (i : ℕ) → separator_at (fold_case k path) i ≡ separator_at path i
unfolding separator_at
separator_at-fold k d [] i = refl
separator_at-fold k d (c ∷ cs) zero = ground (arith, d.upcase_separator c)
separator_at-fold k d (c ∷ cs) (suc i) = separator_at-fold k d cs i

length-fold : (k : Kernel) (path : Name) → length (fold_case k path) ≡ length path
length-fold k [] = refl
length-fold k (c ∷ cs) = ap suc (length-fold k cs)

ends_with_separator-fold :
    (k : Kernel)
    → IsDocumented k
    → (path : Name) → ends_with_separator (fold_case k path) ≡ ends_with_separator path
unfolding ends_with_separator
ends_with_separator-fold k d path =
    rw (length-fold k path, separator_at-fold k d path (length path - 1))

-- At or beneath a directory, on upper-case forms: the directory itself, or what continues it behind
-- a separator, which is its own last character if it ends in one.
pub data Under (dir path : Name) : Type 0 where
  itself : path ≡ dir → Under dir path
  inside : (rest : Name) → ends_with_separator dir ≡ true → path ≡ dir ++ rest → Under dir path
  behind : (rest : Name) → path ≡ dir ++ separator ∷ rest → Under dir path

separator_at-append :
    (dir rest : Name)
    → separator_at (dir ++ rest) (length dir) ≡ true
    → (tail : Name) × (rest ≡ separator ∷ tail)
unfolding separator_at
separator_at-append [] [] h = absurd (cc)
separator_at-append [] (c ∷ rest) h = (rest, ap (λ x. x ∷ rest) ((==_iff c separator).0 h))
separator_at-append (x ∷ dir) rest h = separator_at-append dir rest h

separator_at-behind : (dir rest : Name) → separator_at (dir ++ separator ∷ rest) (length dir) ≡ true
unfolding separator_at
separator_at-behind [] rest = refl
separator_at-behind (x ∷ dir) rest = separator_at-behind dir rest

-- The last test of PathCacheIsUnder, on upper-case forms.
at_boundary : Name → Name → Bool
at_boundary dir path =
    (length path == length dir) || ends_with_separator dir || separator_at path (length dir)

is_under-fold :
    (k : Kernel)
    → IsDocumented k
    → (dir path : Name)
    → is_under k dir path ≡ (
        if ltb (length (fold_case k path)) (length (fold_case k dir))
        then false
        else if not (k.is_prefix dir path)
        then false
        else at_boundary (fold_case k dir) (fold_case k path))
unfolding is_under at_boundary
is_under-fold k d dir path =
    rw (length-fold k dir, length-fold k path)
      (ground (
        arith,
        separator_at-fold k d dir (length dir - 1),
        separator_at-fold k d path (length dir),
      ))

Under-boundary : (dir rest : Name) → at_boundary dir (dir ++ rest) ≡ true → Under dir (dir ++ rest)
unfolding at_boundary
Under-boundary dir [] h = itself (append-nil dir)
Under-boundary dir (c ∷ rest) h = elim (Bool-cases (ends_with_separator dir)) [
  | inl p ↦ inside (c ∷ rest) p refl
  | inr p ↦
      let (tail, e) =
        separator_at-append dir (c ∷ rest) (ground (arith, length-append dir (c ∷ rest))) in
      behind tail (ap (λ r. dir ++ r) e)
]

boundary-Under :
    (dir path : Name)
    → Under dir path
    → ((rest : Name) × (path ≡ dir ++ rest)) × (at_boundary dir path ≡ true)
unfolding at_boundary
boundary-Under dir path (itself e) = (([], e ∙ sym (append-nil dir)), rw e (ground arith))
boundary-Under dir path (inside rest p e) = ((rest, e), ground arith)
boundary-Under dir path (behind rest e) =
    ((separator ∷ rest, e), rw e (ground (arith, separator_at-behind dir rest)))

-- PathCacheIsUnder holds exactly of the directory itself, of every path that continues it behind a
-- separator, and of every path that continues it at all if it ends in one; all of it ignoring case.
pub is_under_iff :
    (k : Kernel) (dir path : Name)
    → IsDocumented k
    → (is_under k dir path ≡ true) ↔ Under (fold_case k dir) (fold_case k path)
is_under_iff k dir path d = (to, from)
  where
    to : is_under k dir path ≡ true → Under (fold_case k dir) (fold_case k path)
    to h = elim (Bool-cases (k.is_prefix dir path)) [
      | inl p ↦
          let (rest, e) = (d.prefix_iff dir path).0 p in
          subst (Under (fold_case k dir)) (sym e) (
            Under-boundary (fold_case k dir) rest (
              subst (λ q. at_boundary (fold_case k dir) q ≡ true) e
                (ground (arith, is_under-fold k d dir path))))
      | inr p ↦ absurd (ground (arith, is_under-fold k d dir path))
    ]

    from : Under (fold_case k dir) (fold_case k path) → is_under k dir path ≡ true
    from u =
        let ((rest, e), at) = boundary-Under (fold_case k dir) (fold_case k path) u in
        let prefix : k.is_prefix dir path ≡ true = (d.prefix_iff dir path).1 (rest, e) in
        let longer : length (fold_case k path) ≡ length (fold_case k dir) + length rest =
          ap length e ∙ length-append (fold_case k dir) rest in
        ground (arith, is_under-fold k d dir path)

-- Paths that are equal ignoring case are under the same directories.
pub is_under-equal :
    (k : Kernel)
    → IsDocumented k
    → (dir p q : Name) → k.equal p q ≡ true
    → is_under k dir p ≡ true
    → is_under k dir q ≡ true
is_under-equal k d dir p q e h =
    (is_under_iff k dir q d).1
      (subst (Under (fold_case k dir)) ((d.equal_iff p q).0 e) ((is_under_iff k dir p d).0 h))
