-- ===== src/PathCache/Valid/ListingBuckets.antt =====
-- What the walks over a listing bucket do to its entries and charges.
use blorg_fs.Prelude.{
  ℕ, suc, ◌+◌, ◌-◌, ◌^◌, ◌≤◌, ◌<◌, ◌≡◌, refl, Bool, List, [], ◌∷◌, inl, inr, arith, length, sum_of,
  add64, ltb, leb, ◌==◌, Bool-cases, Sub, keep, skip, Sub-refl, Sub-trans, sum_of-Sub, length-Sub,
}
use blorg_fs.PathCache.Kernel.{Name, Kernel}
use blorg_fs.PathCache.Types.{
  ListingEntry, Charges, uncharge, listing_max_per_bucket, listing_max_bytes,
}
use blorg_fs.PathCache.Invalidate.{drop_listing, sweep_listings}
use blorg_fs.PathCache.Publish.{evict_one, evict_bytes}
use blorg_fs.PathCache.Valid.{holds, held_bytes}

-- Entries left, and the charges fell by what they held.
pub record Released (es : List ListingEntry) (n : Charges) (es' : List ListingEntry) (n' : Charges)
    : Type 0 where
  pub sub : Sub ListingEntry es' es
  pub bucket : n'.bucket + length es ≡ n.bucket + length es'
  pub bytes : n'.bytes + held_bytes es ≡ n.bytes + held_bytes es'
  pub references :
      (id : ℕ) → n'.references id + sum_of (holds id) es ≡ n.references id + sum_of (holds id) es'

-- The charges hold what the entries hold, and do not wrap.
pub record Covers (es : List ListingEntry) (n : Charges) : Type 0 where
  pub bucket : length es ≤ n.bucket
  pub bucket_lt : n.bucket < 2 ^ 32
  pub bytes : held_bytes es ≤ n.bytes
  pub bytes_lt : n.bytes < 2 ^ 64
  pub references : (id : ℕ) → sum_of (holds id) es ≤ n.references id

pub Released-refl : (es : List ListingEntry) (n : Charges) → Released es n es n
Released-refl es n = record {
  sub = Sub-refl es;
  bucket = refl;
  bytes = refl;
  references = λ id. refl;
}

references-uncharge :
    (n : Charges) (e : ListingEntry) (id : ℕ)
    → (uncharge n e).references id ≡ n.references id - holds id e
unfolding uncharge
references-uncharge n e id = elim (Bool-cases (e.listing.id == id)) [
  | inl p ↦ rw p (ground arith)
  | inr p ↦ rw p (omega arith)
]

pub Covers-tail :
    {e : ListingEntry} {es : List ListingEntry} {n : Charges} → Covers (e ∷ es) n → Covers es n
Covers-tail {e} {es} {n} c = record {
  bucket = omega (arith, c.bucket);
  bucket_lt = c.bucket_lt;
  bytes = omega (arith, c.bytes);
  bytes_lt = c.bytes_lt;
  references = λ id. omega (arith, c.references id);
}

pub Covers-uncharge :
    {e : ListingEntry} {es : List ListingEntry} {n : Charges}
    → Covers (e ∷ es) n
    → Covers es (uncharge n e)
unfolding uncharge
Covers-uncharge {e} {es} {n} c = record {
  bucket = omega (arith, c.bucket, c.bucket_lt);
  bucket_lt = omega (arith, c.bucket_lt);
  bytes = omega (arith, c.bytes, c.bytes_lt);
  bytes_lt = omega arith;
  references = λ id. omega (arith, c.references id, references-uncharge n e id);
}

-- The head leaves, and then what `r` says.
pub Released-uncharge :
    {e : ListingEntry} {es es' : List ListingEntry} {n n' : Charges}
    → Covers (e ∷ es) n
    → Released es (uncharge n e) es' n'
    → Released (e ∷ es) n es' n'
unfolding uncharge
Released-uncharge {e} {es} {es'} {n} {n'} c r = record {
  sub = skip r.sub;
  bucket = omega (arith, c.bucket, c.bucket_lt, r.bucket);
  bytes = omega (arith, c.bytes, c.bytes_lt, r.bytes);
  references = λ id. omega (arith, c.references id, references-uncharge n e id, r.references id);
}

-- The head stays.
pub Released-keep :
    {e : ListingEntry} {es es' : List ListingEntry} {n n' : Charges}
    → Released es n es' n'
    → Released (e ∷ es) n (e ∷ es') n'
Released-keep {e} {es} {es'} {n} {n'} r = record {
  sub = keep r.sub;
  bucket = omega (arith, r.bucket);
  bytes = omega (arith, r.bytes);
  references = λ id. omega (arith, r.references id);
}

pub drop_listing-Released :
    (k : Kernel) (dir : Name) (es : List ListingEntry) (n : Charges)
    → Covers es n
    → let (es', n') = drop_listing k dir es n in Released es n es' n'
unfolding drop_listing
drop_listing-Released k dir [] n c = Released-refl [] n
drop_listing-Released k dir (e ∷ es) n c = elim (Bool-cases (k.equal e.path dir)) [
  | inl p ↦ rw p (Released-uncharge c (Released-refl es (uncharge n e)))
  | inr p ↦ rw p (Released-keep (drop_listing-Released k dir es n (Covers-tail c)))
]

pub sweep_listings-Released :
    (test : ListingEntry → Bool) (es : List ListingEntry) (n : Charges)
    → Covers es n
    → let (es', n') = sweep_listings test es n in Released es n es' n'
unfolding sweep_listings
sweep_listings-Released test [] n c = Released-refl [] n
sweep_listings-Released test (e ∷ es) n c = elim (Bool-cases (test e)) [
  | inl p ↦
      rw p
        (Released-uncharge c (sweep_listings-Released test es (uncharge n e) (Covers-uncharge c)))
  | inr p ↦ rw p (Released-keep (sweep_listings-Released test es n (Covers-tail c)))
]

pub evict_one-Released :
    (es : List ListingEntry) (n : Charges)
    → Covers es n
    → let (es', n') = evict_one es n in Released es n es' n'
unfolding evict_one
evict_one-Released [] n c = Released-refl [] n
evict_one-Released (e ∷ es) n c = elim (Bool-cases (leb listing_max_per_bucket n.bucket)) [
  | inl p ↦ rw p (Released-uncharge c (Released-refl es (uncharge n e)))
  | inr p ↦ rw p (Released-refl (e ∷ es) n)
]

pub evict_bytes-Released :
    (bytes : ℕ) (es : List ListingEntry) (n : Charges)
    → Covers es n
    → let (es', n') = evict_bytes bytes es n in Released es n es' n'
unfolding evict_bytes
evict_bytes-Released bytes [] n c = Released-refl [] n
evict_bytes-Released bytes (e ∷ es) n c =
    elim (Bool-cases (ltb listing_max_bytes (add64 n.bytes bytes))) [
      | inl p ↦
          rw p
            (Released-uncharge c (evict_bytes-Released bytes es (uncharge n e) (Covers-uncharge c)))
      | inr p ↦ rw p (Released-refl (e ∷ es) n)
    ]

pub Released-trans :
    {es es' es'' : List ListingEntry} {n n' n'' : Charges}
    → Released es n es' n'
    → Released es' n' es'' n''
    → Released es n es'' n''
Released-trans {es} {es'} {es''} {n} {n'} {n''} r s = record {
  sub = Sub-trans r.sub s.sub;
  bucket = omega (arith, r.bucket, s.bucket);
  bytes = omega (arith, r.bytes, s.bytes);
  references = λ id. omega (arith, r.references id, s.references id);
}

-- What is left is still covered.
pub Covers-Released :
    {es es' : List ListingEntry} {n n' : Charges}
    → Covers es n
    → Released es n es' n'
    → Covers es' n'
Covers-Released {es} {es'} {n} {n'} c r = record {
  bucket = omega (arith, c.bucket, r.bucket, length-Sub r.sub);
  bucket_lt = omega (arith, c.bucket_lt, r.bucket, length-Sub r.sub);
  bytes = omega (arith, c.bytes, r.bytes);
  bytes_lt = omega (arith, c.bytes_lt, r.bytes, sum_of-Sub (λ (e : ListingEntry). e.bytes) r.sub);
  references = λ id. omega (arith, c.references id, r.references id);
}

-- One entry, wherever it stood, leaves.
pub Released-existing :
    {es es' : List ListingEntry} {n : Charges} (e : ListingEntry)
    → Covers es n
    → Sub ListingEntry es' es
    → ((f : ListingEntry → ℕ) → sum_of f es' + f e ≡ sum_of f es)
    → suc (length es') ≡ length es
    → Released es n es' (uncharge n e)
unfolding uncharge
Released-existing {es} {es'} {n} e c s h l = record {
  sub = s;
  bucket = omega (arith, c.bucket, c.bucket_lt);
  bytes = omega (arith, c.bytes, c.bytes_lt, h (λ (x : ListingEntry). x.bytes));
  references = λ id. omega (arith, c.references id, references-uncharge n e id, h (holds id));
}
