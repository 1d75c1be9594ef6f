-- ===== src/Handshake/Reply.antt =====
-- What a step of src/TlsHandshake.c gives: the errors of this code by their status; a read outside a
-- buffer or a loop without end is `broken`.
use blorg_fs.Prelude.{
  ◌≡◌, ◌≢◌, refl, ap, ◌∙◌, if◌then◌else◌, Bool, true, false, Option, none, some, Outcome, fault,
  refused, ok,
}

-- STATUS_INVALID_PARAMETER, STATUS_INSUFFICIENT_RESOURCES, STATUS_TRUST_FAILURE, and any status that
-- the system's cryptography gives.
pub data Status : Type 0 where
  invalid_parameter insufficient_resources trust_failure crypto_failure : Status

pub data Answer {ℓ} (A : Type ℓ) : Type ℓ where
  broken : Answer A
  failed : Status → Answer A
  replied : A → Answer A

infixl 5 ◌>>=◌ ◌>>◌
abbrev pub ◌>>=◌ {ℓ κ} : {A : Type ℓ} {B : Type κ} → Answer A → (A → Answer B) → Answer B
broken >>= f = broken
failed s >>= f = failed s
replied a >>= f = f a

abbrev pub ◌>>◌ {ℓ} : {B : Type ℓ} → Answer (Unit {0}) → Answer B → Answer B
m >> k = m >>= λ _. k

abbrev pub require : Status → Bool → Answer (Unit {0})
require s true = replied tt
require s false = failed s

-- A parser's result, and a result of the system.
abbrev pub parsed {ℓ} : {A : Type ℓ} → Outcome A → Answer A
parsed fault = broken
parsed refused = failed invalid_parameter
parsed (ok a) = replied a

abbrev pub derived {ℓ} : {A : Type ℓ} → Outcome A → Answer A
derived fault = broken
derived refused = failed crypto_failure
derived (ok a) = replied a

abbrev pub from_system {ℓ} : {A : Type ℓ} → Option A → Answer A
from_system none = failed crypto_failure
from_system (some a) = replied a

module _ {ℓ κ} {A : Type ℓ} {B : Type κ} where
  -- Inversion of a chain that succeeds.
  pub >>=-replied :
      (m : Answer A) (f : A → Answer B) {b : B}
      → (m >>= f) ≡ replied b
      → (a : A) × (m ≡ replied a) × (f a ≡ replied b)
  >>=-replied broken f h = cc h
  >>=-replied (failed s) f h = cc h
  >>=-replied (replied a) f h = (a, refl, h)

  pub >>=-ne-broken :
      (m : Answer A) (f : A → Answer B) → m ≢ broken → ((a : A) → f a ≢ broken) → (m >>= f) ≢ broken
  >>=-ne-broken broken f h k = λ e. h refl
  >>=-ne-broken (failed s) f h k = λ e. cc e
  >>=-ne-broken (replied a) f h k = k a

module _ {ℓ} {A : Type ℓ} where
  pub require-replied :
      (s : Status) (test : Bool) (k : Answer A) {b : A}
      → (require s test >> k) ≡ replied b
      → (test ≡ true) × (k ≡ replied b)
  require-replied s true k h = (refl, h)
  require-replied s false k h = cc h

  pub parsed-replied : (o : Outcome A) {a : A} → parsed o ≡ replied a → o ≡ ok a
  parsed-replied fault h = cc h
  parsed-replied refused h = cc h
  parsed-replied (ok a) h = cc h

  pub derived-replied : (o : Outcome A) {a : A} → derived o ≡ replied a → o ≡ ok a
  derived-replied fault h = cc h
  derived-replied refused h = cc h
  derived-replied (ok a) h = cc h

  pub from_system-replied : (o : Option A) {a : A} → from_system o ≡ replied a → o ≡ some a
  from_system-replied none h = cc h
  from_system-replied (some a) h = cc h

  abbrev value : A → Answer A → A
  value a broken = a
  value a (failed s) = a
  value a (replied b) = b

  pub replied-inj : (a b : A) → replied a ≡ replied b → a ≡ b
  replied-inj a b e = ap (value a) e

  pub require-ne-broken :
      (s : Status) (test : Bool) (k : Answer A)
      → (test ≡ true → k ≢ broken)
      → (require s test >> k) ≢ broken
  require-ne-broken s true k h = h refl
  require-ne-broken s false k h = λ e. cc e

  pub parsed-ne-broken : (o : Outcome A) → o ≢ fault → parsed o ≢ broken
  parsed-ne-broken fault h = λ e. h refl
  parsed-ne-broken refused h = λ e. cc e
  parsed-ne-broken (ok a) h = λ e. cc e

  pub derived-ne-broken : (o : Outcome A) → o ≢ fault → derived o ≢ broken
  derived-ne-broken fault h = λ e. h refl
  derived-ne-broken refused h = λ e. cc e
  derived-ne-broken (ok a) h = λ e. cc e

  pub from_system-ne-broken : (o : Option A) → from_system o ≢ broken
  from_system-ne-broken none = λ e. cc e
  from_system-ne-broken (some a) = λ e. cc e

pub chain-ne-broken {ℓ κ} :
    {A : Type ℓ} {B : Type κ} (o : Outcome A) (f : A → Answer B)
    → o ≢ fault
    → ((a : A) → o ≡ ok a → f a ≢ broken)
    → (parsed o >>= f) ≢ broken
chain-ne-broken fault f h k = λ e. h refl
chain-ne-broken refused f h k = λ e. cc e
chain-ne-broken (ok a) f h k = k a refl

-- A chain, step by step.
module _ {ℓ κ} {A : Type ℓ} {B : Type κ} where
  pub answer_then :
      (m : Answer A) (f : A → Answer B) (a : A) {r : Answer B}
      → m ≡ replied a
      → f a ≡ r
      → (m >>= f) ≡ r
  answer_then m f a e h = ap (λ m. m >>= f) e ∙ h

  pub parsed_then :
      (o : Outcome A) (f : A → Answer B) (a : A) {r : Answer B}
      → o ≡ ok a
      → f a ≡ r
      → (parsed o >>= f) ≡ r
  parsed_then o f a e h = ap (λ o. parsed o >>= f) e ∙ h

  pub derived_then :
      (o : Outcome A) (f : A → Answer B) (a : A) {r : Answer B}
      → o ≡ ok a
      → f a ≡ r
      → (derived o >>= f) ≡ r
  derived_then o f a e h = ap (λ o. derived o >>= f) e ∙ h

  pub system_gives :
      (o : Option A) (f : A → Answer B) (a : A) {r : Answer B}
      → o ≡ some a
      → f a ≡ r
      → (from_system o >>= f) ≡ r
  system_gives o f a e h = ap (λ o. from_system o >>= f) e ∙ h

module _ {ℓ} {A : Type ℓ} where
  pub required :
      (s : Status) (test : Bool) (k : Answer A) {r : Answer A}
      → test ≡ true
      → k ≡ r
      → (require s test >> k) ≡ r
  required s test k e h = ap (λ t. require s t >> k) e ∙ h

  pub when_true :
      (test : Bool) (a b : Answer A) {r : Answer A}
      → test ≡ true
      → a ≡ r
      → (if test then a else b) ≡ r
  when_true test a b e h = ap (λ t. if t then a else b) e ∙ h

  pub when_false :
      (test : Bool) (a b : Answer A) {r : Answer A}
      → test ≡ false
      → b ≡ r
      → (if test then a else b) ≡ r
  when_false test a b e h = ap (λ t. if t then a else b) e ∙ h
