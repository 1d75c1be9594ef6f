-- ===== src/Prelude/Arrays.antt =====
-- Arrays as functions of an index; what lies past an array's extent is never read (the
-- components prove it where they need it).
use Prim.Native.Nat.{ℕ, zero, suc, ◌+◌, ◌*◌, ◌≤◌, ◌<◌}
use mathlib.Core.Path.{◌≡◌, refl, ap, sym, subst}
use mathlib.Core.Logic.{◌≢◌}
use native.Mathlib.Omega.{arith}
use native.Mathlib.Decide.{ℕ_discrete}
use blorg_fs.Prelude.Tests.{◌==◌, if◌then◌else◌}

module _ {ℓ} {A : Type ℓ} where
  abbrev pub update : (ℕ → A) → ℕ → A → ℕ → A
  update f i v j = if i == j then v else f j

  pub update_self : (f : ℕ → A) (i : ℕ) (v : A) → update f i v i ≡ v
  update_self f i v = ground arith

  pub update_ne : (f : ℕ → A) (i j : ℕ) (v : A) → i ≢ j → update f i v j ≡ f j
  update_ne f i j v h = ground arith

-- The sum of the first `n` values.
unfoldable pub total : ℕ → (ℕ → ℕ) → ℕ
total zero f = 0
total (suc n) f = total n f + f n

pub total-ext : (n : ℕ) (f g : ℕ → ℕ) → ((i : ℕ) → i < n → f i ≡ g i) → total n f ≡ total n g
unfolding total
total-ext zero f g h = refl
total-ext (suc n) f g h =
    omega (arith, total-ext n f g (λ i p. h i (omega arith)), h n (omega arith))

-- A sum whose terms agree but for one.
pub total-change :
    (n i : ℕ) (f g : ℕ → ℕ)
    → i < n
    → ((j : ℕ) → i ≢ j → f j ≡ g j)
    → total n f + g i ≡ total n g + f i
unfolding total
total-change zero i f g h e = absurd (omega arith)
total-change (suc n) i f g h e = elim (ℕ_discrete n i) [
  | yes p ↦ omega (arith, total-ext n f g (λ j q. e j (omega arith)), ap f p, ap g p)
  | no p ↦ omega (arith, total-change n i f g (omega arith) e, e n (omega arith))
]

pub le-total : (n i : ℕ) (f : ℕ → ℕ) → i < n → f i ≤ total n f
unfolding total
le-total zero i f h = absurd (omega arith)
le-total (suc n) i f h = elim (ℕ_discrete n i) [
  | yes p ↦ omega (arith, ap f p)
  | no p ↦ omega (arith, le-total n i f (omega arith))
]

-- What holds of every cell, and of the new value at its index, holds after an update.
pub update_all {ℓ κ} :
    {A : Type ℓ} (P : ℕ → A → Type κ) (f : ℕ → A) (i : ℕ) (v : A)
    → P i v
    → ((j : ℕ) → P j (f j))
    → (j : ℕ) → P j (update f i v j)
update_all P f i v h all j = elim (ℕ_discrete i j) [
  | yes e ↦ subst (λ n. P n (update f i v n)) e (rw (update_self f i v) h)
  | no ne ↦ rw (update_ne f i j v ne) (all j)
]

-- One cell's measure changes in the sum of all.
pub total-update {ℓ} :
    {A : Type ℓ} (n i : ℕ) (measure : A → ℕ) (f : ℕ → A) (v : A)
    → i < n
    → total n (λ j. measure (update f i v j)) + measure (f i)
      ≡ total n (λ j. measure (f j)) + measure v
total-update n i measure f v h = omega (
  arith,
  total-change n i (λ j. measure (f j)) (λ j. measure (update f i v j)) h
      (λ j ne. ap measure (sym (update_ne f i j v ne))),
  ap measure (update_self f i v),
)

pub total-le : (n m : ℕ) (f : ℕ → ℕ) → ((i : ℕ) → f i ≤ m) → total n f ≤ n * m
unfolding total
total-le zero m f h = omega arith
total-le (suc n) m f h = omega (arith, total-le n m f h, h n)

-- An update that keeps a cell's measure keeps the sum.
pub total-same {ℓ} :
    {A : Type ℓ} (n i : ℕ) (measure : A → ℕ) (f : ℕ → A) (v : A)
    → measure v ≡ measure (f i)
    → total n (λ j. measure (update f i v j)) ≡ total n (λ j. measure (f j))
total-same n i measure f v h =
    total-ext n (λ j. measure (update f i v j)) (λ j. measure (f j))
      (λ j _. update_all (λ j a. measure a ≡ measure (f j)) f i v h (λ j. refl) j)
