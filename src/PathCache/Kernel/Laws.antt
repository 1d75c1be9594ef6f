-- ===== src/PathCache/Kernel/Laws.antt =====
-- Consequences of the documented behaviour: equality of paths is an equivalence.
use blorg_fs.Prelude.{◌≡◌, true, false, sym, ◌∙◌, refl, inl, inr, Bool-cases}
use blorg_fs.PathCache.Kernel.{Name, Kernel, IsDocumented}

module _ (k : Kernel) (d : IsDocumented k) where
  pub equal_refl : (p : Name) → k.equal p p ≡ true
  equal_refl p = (d.equal_iff p p).1 refl

  pub equal_sym : (p q : Name) → k.equal p q ≡ true → k.equal q p ≡ true
  equal_sym p q h = (d.equal_iff q p).1 (sym ((d.equal_iff p q).0 h))

  pub equal_trans : (p q r : Name) → k.equal p q ≡ true → k.equal q r ≡ true → k.equal p r ≡ true
  equal_trans p q r h g = (d.equal_iff p r).1 ((d.equal_iff p q).0 h ∙ (d.equal_iff q r).0 g)

  -- Two paths equal to a third are equal.
  pub equal_both : (p q r : Name) → k.equal p r ≡ true → k.equal q r ≡ true → k.equal p q ≡ true
  equal_both p q r h g = equal_trans p r q h (equal_sym q r g)

  -- What is unequal to `p` is unequal to what equals `p`.
  pub equal_false : (p q r : Name) → k.equal p q ≡ false → k.equal p r ≡ true → k.equal q r ≡ false
  equal_false p q r h g = elim (Bool-cases (k.equal q r)) [
    | inl e ↦ absurd (cc (equal_both p q r g e))
    | inr e ↦ e
  ]
