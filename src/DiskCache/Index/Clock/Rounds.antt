-- ===== src/DiskCache/Index/Clock/Rounds.antt =====
-- The rounds of DiskCacheIndexVictim of src/DiskCacheIndex.c, and induction on them.
use blorg_fs.Prelude.{
  ℕ, zero, suc, ◌≤◌, ◌<◌, ◌≡◌, refl, sym, ◌∙◌, subst, Bool, true, false, ◌&&◌, not, inl, inr, arith,
  update_all, ◌==◌, if◌then◌else◌, Bool-cases,
}
use blorg_fs.DiskCache.Types.{Slot, Index, is_free, no_slot, max_slots}
use blorg_fs.DiskCache.Index.Clock.{after, unmark, sweep}

-- The hand is on a slot, and the slots are no more than the index is sized for.
pub record IsSized (x : Index) : Type 0 where
  pub hand : x.hand < x.slot_count
  pub count : x.slot_count ≤ max_slots

-- Two indexes agree on everything but marks and the hand.
pub record SameButMarks (x x' : Index) : Type 0 where
  pub key : (j : ℕ) → (x'.slots j).key ≡ (x.slots j).key
  pub next : (j : ℕ) → (x'.slots j).next ≡ (x.slots j).next
  pub pins : (j : ℕ) → (x'.slots j).pins ≡ (x.slots j).pins
  pub state : (j : ℕ) → (x'.slots j).state ≡ (x.slots j).state
  pub heads : x'.heads ≡ x.heads
  pub ghosts : x'.ghosts ≡ x.ghosts
  pub slot_count : x'.slot_count ≡ x.slot_count
  pub hash_mask : x'.hash_mask ≡ x.hash_mask
  pub ghost_mask : x'.ghost_mask ≡ x.ghost_mask

abbrev pub moved_on : Index → Index
moved_on x = record x { hand = after x x.hand }

-- What one round leaves when it goes on.
abbrev pub passed : Bool → Index → Index
passed marked x = if marked then unmark (moved_on x) x.hand else moved_on x

pub SameButMarks-trans :
    (x x' x'' : Index) → SameButMarks x x' → SameButMarks x' x'' → SameButMarks x x''
SameButMarks-trans x x' x'' s t = record {
  key = λ j. t.key j ∙ s.key j;
  next = λ j. t.next j ∙ s.next j;
  pins = λ j. t.pins j ∙ s.pins j;
  state = λ j. t.state j ∙ s.state j;
  heads = t.heads ∙ s.heads;
  ghosts = t.ghosts ∙ s.ghosts;
  slot_count = t.slot_count ∙ s.slot_count;
  hash_mask = t.hash_mask ∙ s.hash_mask;
  ghost_mask = t.ghost_mask ∙ s.ghost_mask;
}

-- A field that clearing a mark keeps.
unmark-keeps {ℓ} :
    {A : Type ℓ} (g : Slot → A)
    → ((s : Slot) → g (record s { referenced = false }) ≡ g s)
    → (x : Index) (i j : ℕ) → g ((unmark x i).slots j) ≡ g (x.slots j)
unmark-keeps g h x i j =
    update_all (λ j s. g s ≡ g (x.slots j)) x.slots i (record (x.slots i) { referenced = false })
      (h (x.slots i)) (λ j. refl) j

pub passed-SameButMarks : (marked : Bool) (x : Index) → SameButMarks x (passed marked x)
passed-SameButMarks true x = record {
  key = unmark-keeps (λ s. s.key) (λ s. refl) (moved_on x) x.hand;
  next = unmark-keeps (λ s. s.next) (λ s. refl) (moved_on x) x.hand;
  pins = unmark-keeps (λ s. s.pins) (λ s. refl) (moved_on x) x.hand;
  state = unmark-keeps (λ s. s.state) (λ s. refl) (moved_on x) x.hand;
  heads = refl;
  ghosts = refl;
  slot_count = refl;
  hash_mask = refl;
  ghost_mask = refl;
}
passed-SameButMarks false x = record {
  key = λ j. refl;
  next = λ j. refl;
  pins = λ j. refl;
  state = λ j. refl;
  heads = refl;
  ghosts = refl;
  slot_count = refl;
  hash_mask = refl;
  ghost_mask = refl;
}

pub passed-IsSized : (marked : Bool) (x : Index) → IsSized x → IsSized (passed marked x)
passed-IsSized true x h = record { hand = ground (arith, h.hand); count = h.count }
passed-IsSized false x h = record { hand = ground (arith, h.hand); count = h.count }

abbrev pub is_marked : Index → Bool
is_marked x = not (is_free (x.slots x.hand).state) && (x.slots x.hand).referenced

-- The three ways that a round goes: past a pinned slot, past a marked one, and to an end.
sweep-pinned :
    (left fallback : ℕ) (x : Index)
    → ((x.slots x.hand).pins == 0) ≡ false
    → sweep (suc left) fallback x ≡ sweep left fallback (moved_on x)
unfolding sweep
sweep-pinned left fallback x p = elim (Bool-cases (is_marked x)) [
  | inl m ↦ rw (p, m) refl
  | inr m ↦ rw (p, m) refl
]

sweep-marked :
    (left fallback : ℕ) (x : Index)
    → ((x.slots x.hand).pins == 0) ≡ true
    → is_marked x ≡ true
    → sweep (suc left) fallback x
      ≡ sweep left (if fallback == no_slot then x.hand else fallback) (passed true x)
unfolding sweep
sweep-marked left fallback x p m = rw (p, m) refl

sweep-ends :
    (left fallback : ℕ) (x : Index)
    → ((x.slots x.hand).pins == 0) ≡ true
    → is_marked x ≡ false
    → sweep (suc left) fallback x ≡ (x.hand, moved_on x)
unfolding sweep
sweep-ends left fallback x p m = rw (p, m) refl

module _ (P : ℕ → ℕ → Index → ℕ × Index → Type 0) where
  -- Induction on the rounds: what holds of no round, and of each way that a round goes.
  pub sweep-induction :
      ((fallback : ℕ) (x : Index) → P 0 fallback x (fallback, x))
      → ((left fallback : ℕ) (x : Index) (r : ℕ × Index)
          → ((x.slots x.hand).pins == 0) ≡ false
          → P left fallback (passed false x) r
          → P (suc left) fallback x r)
      → ((left fallback : ℕ) (x : Index) (r : ℕ × Index)
          → ((x.slots x.hand).pins == 0) ≡ true
          → P left (if fallback == no_slot then x.hand else fallback) (passed true x) r
          → P (suc left) fallback x r)
      → ((left fallback : ℕ) (x : Index)
          → ((x.slots x.hand).pins == 0) ≡ true
          → P (suc left) fallback x (x.hand, moved_on x))
      → (left fallback : ℕ) (x : Index) → P left fallback x (sweep left fallback x)
  unfolding sweep
  sweep-induction none pinned marked ends zero fallback x = none fallback x
  sweep-induction none pinned marked ends (suc left) fallback x =
      elim (Bool-cases ((x.slots x.hand).pins == 0)) [
        | inl p ↦ elim (Bool-cases (is_marked x)) [
          | inl m ↦ subst (P (suc left) fallback x) (sym (sweep-marked left fallback x p m)) (
              marked left fallback x _ p
                (sweep-induction none pinned marked ends left _ (passed true x)))
          | inr m ↦
              subst (P (suc left) fallback x) (sym (sweep-ends left fallback x p m))
                (ends left fallback x p)
        ]
        | inr p ↦ subst (P (suc left) fallback x) (sym (sweep-pinned left fallback x p)) (
            pinned left fallback x _ p
              (sweep-induction none pinned marked ends left fallback (passed false x)))
      ]
