-- ===== src/PathCache/Paths/Laws.antt =====
-- PathCacheParent of src/PathCache.c against a description of paths by their parts.
use blorg_fs.Prelude.{
  ℕ, zero, suc, ◌+◌, ◌-◌, ◌≤◌, ◌<◌, ◌≡◌, ◌≢◌, refl, sym, ap, ◌∙◌, ◌||◌, [], ◌∷◌, ◌++◌, none, some,
  arith, length, length-append, get_elem?, All, ◌==◌, if◌then◌else◌, is_empty,
}
use native.Mathlib.Nat.{add-zero, add-suc, zero-add}
use blorg_fs.PathCache.Kernel.{Name, separator}
use blorg_fs.PathCache.Paths.{scan_back, take, parent}

abbrev pub NoSeparator : Name → Type 0
NoSeparator = All (λ c. c ≢ separator)

get_elem?-append_right :
    (xs ys : Name) (i n : ℕ) → i ≡ length xs + n → get_elem? (xs ++ ys) i ≡ get_elem? ys n
get_elem?-append_right [] ys i n e = ap (get_elem? ys) (omega arith)
get_elem?-append_right (x ∷ xs) ys zero n e = absurd (omega arith)
get_elem?-append_right (x ∷ xs) ys (suc i) n e = get_elem?-append_right xs ys i n (omega arith)

get_elem?-append_left :
    (xs ys : Name) (i : ℕ) → i < length xs → get_elem? (xs ++ ys) i ≡ get_elem? xs i
get_elem?-append_left [] ys i h = absurd (omega arith)
get_elem?-append_left (x ∷ xs) ys zero h = refl
get_elem?-append_left (x ∷ xs) ys (suc i) h = get_elem?-append_left xs ys i (omega arith)

NoSeparator-get :
    (xs : Name) (i : ℕ)
    → NoSeparator xs
    → i < length xs
    → (c : ℕ) × (get_elem? xs i ≡ some c) × (c ≢ separator)
NoSeparator-get [] i h lt = absurd (omega arith)
NoSeparator-get (x ∷ xs) zero h lt = (x, refl, h.0)
NoSeparator-get (x ∷ xs) (suc i) h lt = NoSeparator-get xs i h.1 (omega arith)

-- The scan stops behind the last separator.
scan_back-stop :
    (path : Name) (n : ℕ) → get_elem? path n ≡ some separator → scan_back path (suc n) ≡ suc n
unfolding scan_back
scan_back-stop path n e = rw (e, scan_back)

-- And passes over what holds none.
scan_back-pass :
    (path name : Name) (base n : ℕ)
    → ((i : ℕ) → i < length name → get_elem? path (base + i) ≡ get_elem? name i)
    → NoSeparator name
    → n ≤ length name
    → scan_back path (base + n) ≡ scan_back path base
unfolding scan_back
scan_back-pass path name base zero h s le = rw add-zero
scan_back-pass path name base (suc n) h s le =
    let (c, e, ne) = NoSeparator-get name n s (omega arith) in
    let at : get_elem? path (base + n) ≡ some c = h n (omega arith) ∙ e in
    rw add-suc
      (rw (at, scan_back) (ground (arith, scan_back-pass path name base n h s (omega arith))))

-- A path that ends in a separator and then a name scans back to just behind that separator.
scan_back-append :
    (dir name : Name)
    → NoSeparator name
    → let path = dir ++ separator ∷ name in scan_back path (length path) ≡ length dir + 1
scan_back-append dir name s =
    let path = dir ++ separator ∷ name in
    let split : length path ≡ suc (length dir) + length name =
      omega (arith, length-append dir (separator ∷ name)) in
    rw split (
      scan_back-pass path name (suc (length dir)) (length name)
        (λ i h.
          get_elem?-append_right dir (separator ∷ name) (suc (length dir) + i) (suc i)
            (omega arith))
        s (omega arith)
      ∙ scan_back-stop path (length dir)
          (get_elem?-append_right dir (separator ∷ name) (length dir) 0 (omega arith))
      ∙ omega arith)

take-append : (xs ys : Name) (n : ℕ) → n ≡ length xs → take n (xs ++ ys) ≡ xs
take-append [] ys zero e = refl
take-append [] ys (suc n) e = absurd (omega arith)
take-append (x ∷ xs) ys zero e = absurd (omega arith)
take-append (x ∷ xs) ys (suc n) e = ap (λ (r : Name). x ∷ r) (take-append xs ys n (omega arith))

-- The same for a path with no separator at all: nothing is left.
scan_back-none : (name : Name) → NoSeparator name → scan_back name (length name) ≡ 0
unfolding scan_back
scan_back-none name s =
    ap (scan_back name) (sym (zero-add (length name)))
    ∙ scan_back-pass name name 0 (length name) (λ i h. ap (get_elem? name) (zero-add i)) s
        (omega arith)

parent-scan :
    (path : Name) (n : ℕ)
    → scan_back path (length path) ≡ n
    → parent path ≡ (
        if n == 0 || n == length path then none else some (take (if n == 1 then 1 else n - 1) path))
unfolding parent
parent-scan path n e =
    ap
      (λ chars.
        if chars == 0 || chars == length path
        then none
        else some (take (if chars == 1 then 1 else chars - 1) path))
      e

parent_under :
    (dir name : Name)
    → NoSeparator name
    → parent (dir ++ separator ∷ name)
      ≡ (if is_empty name then none else some (if is_empty dir then separator ∷ [] else dir))
parent_under [] [] s = parent-scan (separator ∷ []) 1 (scan_back-append [] [] s)
parent_under [] (x ∷ name) s =
    parent-scan (separator ∷ x ∷ name) 1 (scan_back-append [] (x ∷ name) s) ∙ ground arith
parent_under (y ∷ dir) [] s =
    parent-scan (y ∷ dir ++ separator ∷ []) (length dir + 2)
      (scan_back-append (y ∷ dir) [] s ∙ omega arith)
    ∙ ground (arith, length-append dir (separator ∷ []))
parent_under (y ∷ dir) (x ∷ name) s =
    parent-scan (y ∷ dir ++ separator ∷ x ∷ name) (length dir + 2)
      (scan_back-append (y ∷ dir) (x ∷ name) s ∙ omega arith)
    ∙ ground (
      arith,
      length-append dir (separator ∷ x ∷ name),
      take-append (y ∷ dir) (separator ∷ x ∷ name) (length dir + 2 - 1) (omega arith),
    )

-- PathCacheParent takes a non-empty name without separators, and the separator before it, off a
-- path; what is left is the parent, or the root where nothing is left. A path that ends in a
-- separator, or holds none, has no parent.
pub parent-append :
    (dir name : Name)
    → NoSeparator name
    → (parent (dir ++ separator ∷ name)
        ≡ (if is_empty name then none else some (if is_empty dir then separator ∷ [] else dir)))
      × (parent name ≡ none)
parent-append dir name s = (parent_under dir name s, parent-scan name 0 (scan_back-none name s))
