-- ===== src/Prelude/Fallible.antt =====
-- What code that reads a buffer gives: `fault` is a read outside the buffer, or a loop that does not
-- end; `refused` is an error that the code reports.
use Prim.Native.Nat.{ℕ, zero, suc, ◌+◌, ◌≤◌, ◌<◌}
use mathlib.Core.Path.{◌≡◌, refl, sym, subst, ap}
use mathlib.Core.Logic.{◌≢◌}
use mathlib.Core.Bool.{Bool, true, false}
use mathlib.Core.List.{List, [], ◌∷◌}
use mathlib.Core.Option.{Option, none, some}
use native.Mathlib.Omega.{arith}
use blorg_fs.Prelude.Tests.{leb, if◌then◌else◌, leb→le}
use blorg_fs.Prelude.Lists.{length, get_elem?}

pub data Outcome {ℓ} (A : Type ℓ) : Type ℓ where
  fault refused : Outcome A
  ok : A → Outcome A

infixl 5 ◌>>=◌ ◌>>◌
abbrev pub ◌>>=◌ {ℓ κ} : {A : Type ℓ} {B : Type κ} → Outcome A → (A → Outcome B) → Outcome B
fault >>= f = fault
refused >>= f = refused
ok a >>= f = f a

abbrev pub ◌>>◌ {ℓ} : {B : Type ℓ} → Outcome (Unit {0}) → Outcome B → Outcome B
m >> k = m >>= λ _. k

-- `if (!test) return an error`
abbrev pub require : Bool → Outcome (Unit {0})
require true = ok tt
require false = refused

abbrev pub take {ℓ} : {A : Type ℓ} → ℕ → List A → List A
take zero xs = []
take (suc n) [] = []
take (suc n) (x ∷ xs) = x ∷ take n xs

abbrev pub drop {ℓ} : {A : Type ℓ} → ℕ → List A → List A
drop zero xs = xs
drop (suc n) [] = []
drop (suc n) (x ∷ xs) = drop n xs

abbrev pub found_or_fault {ℓ} : {A : Type ℓ} → Option A → Outcome A
found_or_fault none = fault
found_or_fault (some a) = ok a

-- `Buffer[i]`
unfoldable pub read : List ℕ → ℕ → Outcome ℕ
read m i = found_or_fault (get_elem? m i)

-- RtlCopyMemory of `n` bytes from `Buffer + i`.
unfoldable pub copy : List ℕ → ℕ → ℕ → Outcome (List ℕ)
copy m i n = if leb (i + n) (length m) then ok (take n (drop i m)) else fault

module _ {ℓ κ} {A : Type ℓ} {B : Type κ} where
  pub >>=-ne-fault :
      (m : Outcome A) (f : A → Outcome B)
      → m ≢ fault
      → ((a : A) → m ≡ ok a → f a ≢ fault)
      → (m >>= f) ≢ fault
  >>=-ne-fault fault f h g = λ e. h refl
  >>=-ne-fault refused f h g = λ e. cc e
  >>=-ne-fault (ok a) f h g = g a refl

  -- Inversion of a chain that succeeds.
  pub >>=-eq-ok :
      (m : Outcome A) (f : A → Outcome B) {b : B}
      → (m >>= f) ≡ ok b
      → (a : A) × (m ≡ ok a) × (f a ≡ ok b)
  >>=-eq-ok fault f h = cc h
  >>=-eq-ok refused f h = cc h
  >>=-eq-ok (ok a) f h = (a, refl, h)

pub require-ne-fault {ℓ} :
    {B : Type ℓ} (test : Bool) (k : Outcome B)
    → (test ≡ true → k ≢ fault)
    → (require test >> k) ≢ fault
require-ne-fault true k h = h refl
require-ne-fault false k h = λ e. cc e

pub require-leb {ℓ} :
    {B : Type ℓ} (a b : ℕ) (k : Outcome B) → (a ≤ b → k ≢ fault) → (require (leb a b) >> k) ≢ fault
require-leb a b k h = require-ne-fault (leb a b) k (λ e. h (leb→le a b e))

pub require-eq-ok {ℓ} :
    {B : Type ℓ} (test : Bool) (k : Outcome B) {b : B}
    → (require test >> k) ≡ ok b
    → (test ≡ true) × (k ≡ ok b)
require-eq-ok true k h = (refl, h)
require-eq-ok false k h = cc h

pub get_elem?-lt {ℓ} :
    {A : Type ℓ} (m : List A) (i : ℕ) → i < length m → (x : A) × (get_elem? m i ≡ some x)
get_elem?-lt [] i h = absurd (omega arith)
get_elem?-lt (x ∷ m) zero h = (x, refl)
get_elem?-lt (x ∷ m) (suc i) h = get_elem?-lt m i (omega arith)

pub read-ne-fault : (m : List ℕ) (i : ℕ) → i < length m → read m i ≢ fault
unfolding read
read-ne-fault m i h = let (x, e) = get_elem?-lt m i h in rw e (λ p. cc p)

pub copy-ne-fault : (m : List ℕ) (i n : ℕ) → i + n ≤ length m → copy m i n ≢ fault
unfolding copy
copy-ne-fault m i n h = ground arith

pub length-take {ℓ} : {A : Type ℓ} (n : ℕ) (m : List A) → n ≤ length m → length (take n m) ≡ n
length-take zero m h = refl
length-take (suc n) [] h = absurd (omega arith)
length-take (suc n) (x ∷ m) h = omega (arith, length-take n m (omega arith))

pub length-drop {ℓ} :
    {A : Type ℓ} (n : ℕ) (m : List A) → n ≤ length m → length (drop n m) + n ≡ length m
length-drop zero m h = omega arith
length-drop (suc n) [] h = absurd (omega arith)
length-drop (suc n) (x ∷ m) h = omega (arith, length-drop n m (omega arith))

pub length-copy_if {ℓ} :
    {A : Type ℓ} (test : Bool) (xs : List A) (n : ℕ) {ys : List A}
    → (test ≡ true → length xs ≡ n)
    → (if test then ok xs else fault) ≡ ok ys
    → length ys ≡ n
length-copy_if {A = A} true xs n {ys = ys} h e =
    subst (λ (zs : List A). length zs ≡ n) {x = xs} {y = ys} (cc e) (h refl)
length-copy_if false xs n h e = cc e

pub length-copy : (m : List ℕ) (i n : ℕ) {bytes : List ℕ} → copy m i n ≡ ok bytes → length bytes ≡ n
unfolding copy
length-copy m i n e =
    length-copy_if (leb (i + n) (length m)) (take n (drop i m)) n
      (λ p. length-take n (drop i m) (
        omega (
          arith,
          leb→le (i + n) (length m) p,
          length-drop i m (omega (arith, leb→le (i + n) (length m) p)),
        )))
      e

module _ {ℓ} {A : Type ℓ} where
  abbrev value : A → Outcome A → A
  value a fault = a
  value a refused = a
  value a (ok b) = b

  -- Equal results are of equal values.
  pub ok-inj : (a b : A) → ok a ≡ ok b → a ≡ b
  ok-inj a b e = ap (value a) e

pub ok-pair {ℓ κ} :
    {A : Type ℓ} {B : Type κ} (p q : A × B) → ok p ≡ ok q → (p.0 ≡ q.0) × (p.1 ≡ q.1)
ok-pair {A = A} {B = B} p q e =
    let same = ok-inj p q e in (ap (λ (r : A × B). r.0) same, ap (λ (r : A × B). r.1) same)

pub pair-ok {ℓ κ} : {A : Type ℓ} {B : Type κ} (p q : A × B) → p.0 ≡ q.0 → p.1 ≡ q.1 → ok p ≡ ok q
pair-ok (a, b) (a', b') e f = cc (e, f)

pub >>=-ok {ℓ κ} :
    {A : Type ℓ} {B : Type κ} (m : Outcome A) (f : A → Outcome B) (a : A) {b : B}
    → m ≡ ok a
    → f a ≡ ok b
    → (m >>= f) ≡ ok b
>>=-ok fault f a e h = cc e
>>=-ok refused f a e h = cc e
>>=-ok (ok a') f a {b = b} e h = subst (λ x. f x ≡ ok b) (sym (ok-inj a' a e)) h

pub require-ok {ℓ} :
    {B : Type ℓ} (test : Bool) (k : Outcome B) {b : B}
    → test ≡ true
    → k ≡ ok b
    → (require test >> k) ≡ ok b
require-ok true k e h = h
require-ok false k e h = cc e

pub refused-if {ℓ} : {A : Type ℓ} (o : Outcome A) → o ≢ fault → ((a : A) → o ≢ ok a) → o ≡ refused
refused-if fault h k = absurd (h refl)
refused-if refused h k = refl
refused-if (ok a) h k = absurd (k a refl)

pub ok_if-ne-fault {ℓ} :
    {A : Type ℓ} (test : Bool) (a : A) → test ≡ true → (if test then ok a else fault) ≢ fault
ok_if-ne-fault true a h = λ e. cc e
ok_if-ne-fault false a h = cc h
