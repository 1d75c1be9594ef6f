-- ===== src/Prelude/Contents.antt =====
-- What a buffer holds from an index on.
use Prim.Native.Nat.{ℕ, zero, suc, ◌+◌, ◌≤◌, ◌<◌}
use mathlib.Core.Path.{◌≡◌, refl, sym, ◌∙◌, subst, ap}
use mathlib.Core.Bool.{Bool, true, false}
use mathlib.Core.List.{List, [], ◌∷◌, ◌++◌}
use mathlib.Core.Option.{some}
use native.Mathlib.Omega.{arith}
use blorg_fs.Prelude.Tests.{leb, le→leb, if◌then◌else◌}
use blorg_fs.Prelude.Lists.{length, get_elem?}
use blorg_fs.Prelude.Fallible.{ok, fault, ok-inj, read, copy, take, drop, found_or_fault}

abbrev pub Holds : List ℕ → ℕ → List ℕ → Type 0
Holds m i [] = Unit
Holds m i (x ∷ xs) = (get_elem? m i ≡ some x) × Holds m (suc i) xs

module _ (m : List ℕ) where
  pub Holds-at : (xs : List ℕ) (i j : ℕ) → i ≡ j → Holds m i xs → Holds m j xs
  Holds-at xs i j e h = subst (λ n. Holds m n xs) e h

  pub Holds-append :
      (xs ys : List ℕ) (i : ℕ) → Holds m i (xs ++ ys) → Holds m i xs × Holds m (length xs + i) ys
  Holds-append [] ys i h = (tt, Holds-at ys i (0 + i) (omega arith) h)
  Holds-append (x ∷ xs) ys i h =
      let rest = Holds-append xs ys (suc i) h.1 in
      ((h.0, rest.0), Holds-at ys (length xs + suc i) (suc (length xs) + i) (omega arith) rest.1)

  pub read-some : (i : ℕ) {x : ℕ} → get_elem? m i ≡ some x → read m i ≡ ok x
  unfolding read
  read-some i e = ap found_or_fault e

  pub read-Holds : (x : ℕ) (xs : List ℕ) (i : ℕ) → Holds m i (x ∷ xs) → read m i ≡ ok x
  unfolding read
  read-Holds x xs i h = ap found_or_fault h.0

pub Holds-cons : (x : ℕ) (m xs : List ℕ) (i : ℕ) → Holds m i xs → Holds (x ∷ m) (suc i) xs
Holds-cons x m [] i h = tt
Holds-cons x m (y ∷ xs) i h = (h.0, Holds-cons x m xs (suc i) h.1)

pub Holds-all : (m : List ℕ) → Holds m 0 m
Holds-all [] = tt
Holds-all (x ∷ m) = (refl, Holds-cons x m m 0 (Holds-all m))

pub Holds-le : (m xs : List ℕ) (i : ℕ) → i ≤ length m → Holds m i xs → length xs + i ≤ length m
Holds-le m [] i b h = omega arith
Holds-le m (x ∷ xs) i b h = omega (arith, Holds-le m xs (suc i) (get_elem?-some m i x h.0) h.1)
  where
    get_elem?-some : (m : List ℕ) (i x : ℕ) → get_elem? m i ≡ some x → suc i ≤ length m
    get_elem?-some [] i x e = cc e
    get_elem?-some (y ∷ m) zero x e = omega arith
    get_elem?-some (y ∷ m) (suc i) x e = omega (arith, get_elem?-some m i x e)

pub take-Holds : (m xs : List ℕ) (i : ℕ) → Holds m i xs → take (length xs) (drop i m) ≡ xs
take-Holds m [] i h = refl
take-Holds [] (x ∷ xs) i h = cc h.0
take-Holds (y ∷ m) (x ∷ xs) zero h =
    let tail = Holds-tail y m xs 0 h.1 in
    let same = take-Holds m xs 0 tail in cc (some-head y x h.0, same)
  where
    Holds-tail : (y : ℕ) (m xs : List ℕ) (i : ℕ) → Holds (y ∷ m) (suc i) xs → Holds m i xs
    Holds-tail y m [] i h = tt
    Holds-tail y m (x ∷ xs) i h = (h.0, Holds-tail y m xs (suc i) h.1)

    some-head : (a b : ℕ) → some a ≡ some b → a ≡ b
    some-head a b e = cc e
take-Holds (y ∷ m) (x ∷ xs) (suc i) h = take-Holds m (x ∷ xs) i (h.0, Holds-rest y m xs (suc i) h.1)
  where
    Holds-rest : (y : ℕ) (m xs : List ℕ) (i : ℕ) → Holds (y ∷ m) (suc i) xs → Holds m i xs
    Holds-rest y m [] i h = tt
    Holds-rest y m (x ∷ xs) i h = (h.0, Holds-rest y m xs (suc i) h.1)

pub copy-Holds :
    (m xs : List ℕ) (i : ℕ) → i ≤ length m → Holds m i xs → copy m i (length xs) ≡ ok xs
unfolding copy
copy-Holds m xs i b h =
    rw (le→leb (i + length xs) (length m) (omega (arith, Holds-le m xs i b h)))
      (ap ok (take-Holds m xs i h))

-- A byte of what was copied is the buffer's.
get_elem?-take : (n : ℕ) (m : List ℕ) (j : ℕ) → j < n → get_elem? (take n m) j ≡ get_elem? m j
get_elem?-take zero m j h = absurd (omega arith)
get_elem?-take (suc n) [] j h = refl
get_elem?-take (suc n) (x ∷ m) zero h = refl
get_elem?-take (suc n) (x ∷ m) (suc j) h = get_elem?-take n m j (omega arith)

get_elem?-drop : (i : ℕ) (m : List ℕ) (j k : ℕ) → i + j ≡ k → get_elem? (drop i m) j ≡ get_elem? m k
get_elem?-drop zero m j k e = ap (get_elem? m) {x = j} {y = k} (omega arith)
get_elem?-drop (suc i) [] j k e = refl
get_elem?-drop (suc i) (x ∷ m) j zero e = absurd (omega arith)
get_elem?-drop (suc i) (x ∷ m) j (suc k) e = get_elem?-drop i m j k (omega arith)

copied :
    (test : Bool) (xs : List ℕ) {ys : List ℕ} → (if test then ok xs else fault) ≡ ok ys → xs ≡ ys
copied true xs {ys = ys} e = ok-inj xs ys e
copied false xs e = cc e

pub read-copy :
    (m : List ℕ) (i n j k : ℕ) {bytes : List ℕ}
    → copy m i n ≡ ok bytes
    → i + j ≡ k
    → j < n
    → read bytes j ≡ read m k
unfolding read copy
read-copy m i n j k e at h =
    ap (λ (xs : List ℕ). found_or_fault (get_elem? xs j))
      (sym (copied (leb (i + n) (length m)) (take n (drop i m)) e))
    ∙ ap found_or_fault (get_elem?-take n (drop i m) j h ∙ get_elem?-drop i m j k at)
