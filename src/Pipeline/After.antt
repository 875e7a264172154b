-- ===== src/Pipeline/After.antt =====
-- What holds of the database after a transaction that commits, by one rule for each write.
use offline_reels.Base.Table.{put, find}
use offline_reels.Pipeline.Transaction.{
  Result, ok, err, Tx, ◌>>=◌, committed, save_reel, save_job, reel_admitted, job_admitted, Error,
  integrity_error, save_run, add_reel, add_job, add_item, pure, continue, is_new, run_admitted,
  item_admitted,
}
use offline_reels.Pipeline.Schema.{Db, Reel, Job, reel_key, job_key, Run, Item, run_key}
use offline_reels.Base.{
  refl, Bool, ◌≡◌, true, false, if◌then◌else◌, Option, ◌&&◌, none, arith, ◌∷◌, some,
}

-- If the transaction commits, the database that it leaves has the property.
abbrev pub After {ℓ} : {A : Type 0} → (Db → Type ℓ) → Result (A × Db) → Type ℓ
After P (ok (a, db)) = P db
After P (err e) = Unit

pub After-committed {ℓ} :
    {A : Type 0} (P : Db → Type ℓ) (db : Db) (r : Result (A × Db))
    → P db
    → After P r
    → P (committed db r)
After-committed P db (ok (a, db')) h k = k
After-committed P db (err e) h k = h

new_row : {A : Type 0} (b : Bool) (o : Option A) → (b && is_new o) ≡ true → (b ≡ true) × (o ≡ none)
new_row b none h = ground arith
new_row b (some a) h = ground arith

pub After-if {ℓ} :
    {A : Type 0} (P : Db → Type ℓ) (b : Bool) (m n : Tx A) (db : Db)
    → (b ≡ true → After P (m db))
    → (b ≡ false → After P (n db))
    → After P ((if b then m else n) db)
After-if P true m n db hm hn = hm refl
After-if P false m n db hm hn = hn refl

pub After-option {ℓ} :
    {A B : Type 0} (P : Db → Type ℓ) (o : Option A) (m : Tx B) (f : A → Tx B) (db : Db)
    → (o ≡ none → After P (m db))
    → ((a : A) → o ≡ some a → After P (f a db))
    → After P ((elim o as (λ _. Tx B) [ none ↦ m | some a ↦ f a ]) db)
After-option P none m f db hm hf = hm refl
After-option P (some a) m f db hm hf = hf a refl

module _ {ℓ} {B : Type 0} (P : Db → Type ℓ) (k : Unit {0} → Tx B) where
  pub After-write :
      (b : Bool) (db : Db) (e : Error)
      → (b ≡ true → After P (k tt db))
      → After P (continue (if b then ok (tt, db) else err e) k)
  After-write true db e h = h refl
  After-write false db e h = tt

  pub After-save_reel :
      (r : Reel) (db : Db)
      → (reel_admitted r db.reels ≡ true
          → After P (k tt (record db { reels = put reel_key r db.reels })))
      → After P ((save_reel r >>= k) db)
  unfolding save_reel
  After-save_reel r db h = After-write (reel_admitted r db.reels) _ integrity_error h

  pub After-save_job :
      (j : Job) (db : Db)
      → (job_admitted j db.jobs ≡ true
          → After P (k tt (record db { jobs = put job_key j db.jobs })))
      → After P ((save_job j >>= k) db)
  unfolding save_job
  After-save_job j db h = After-write (job_admitted j db.jobs) _ integrity_error h

  pub After-save_run :
      (r : Run) (db : Db)
      → (run_admitted r db.runs ≡ true
          → After P (k tt (record db { runs = put run_key r db.runs })))
      → After P ((save_run r >>= k) db)
  unfolding save_run
  After-save_run r db h = After-write (run_admitted r db.runs) _ integrity_error h

  pub After-add_reel :
      (r : Reel) (db : Db)
      → ((reel_admitted r db.reels ≡ true) × (find reel_key r.id db.reels ≡ none)
          → After P (k tt (record db { reels = r ∷ db.reels })))
      → After P ((add_reel r >>= k) db)
  unfolding add_reel
  After-add_reel r db h =
      After-write (reel_admitted r db.reels && is_new (find reel_key r.id db.reels)) _
        integrity_error (λ e. h (new_row _ _ e))

  pub After-add_job :
      (j : Job) (db : Db)
      → ((job_admitted j db.jobs ≡ true) × (find job_key j.id db.jobs ≡ none)
          → After P (k tt (record db { jobs = j ∷ db.jobs })))
      → After P ((add_job j >>= k) db)
  unfolding add_job
  After-add_job j db h =
      After-write (job_admitted j db.jobs && is_new (find job_key j.id db.jobs)) _ integrity_error
        (λ e. h (new_row _ _ e))

  pub After-add_item :
      (i : Item) (db : Db)
      → (item_admitted i db.items ≡ true → After P (k tt (record db { items = i ∷ db.items })))
      → After P ((add_item i >>= k) db)
  unfolding add_item
  After-add_item i db h = After-write (item_admitted i db.items) _ integrity_error h

-- A write that ends its block.
pub After-last {ℓ} :
    (P : Db → Type ℓ) (m : Tx (Unit {0})) (db : Db) → After P ((m >>= pure) db) → After P (m db)
After-last P m db h = last (m db) h
  where
    last : (r : Result (Unit {0} × Db)) → After P (continue r pure) → After P r
    last (ok (a, db')) h = h
    last (err e) h = tt

-- What holds after the first part is what the rest starts from.
pub After-bind {ℓ κ} :
    {A B : Type 0} (Q : Db → Type κ) (P : Db → Type ℓ) (m : Tx A) (f : A → Tx B) (db : Db)
    → After Q (m db)
    → ((a : A) (db' : Db) → Q db' → After P (f a db'))
    → After P ((m >>= f) db)
After-bind {A} Q P m f db h k = rest (m db) h
  where
    rest : (r : Result (A × Db)) → After Q r → After P (continue r f)
    rest (ok (a, db')) q = k a db' q
    rest (err e) q = tt

pub After-mono {ℓ κ} :
    {A : Type 0} (P : Db → Type ℓ) (Q : Db → Type κ) (r : Result (A × Db))
    → ((db : Db) → P db → Q db)
    → After P r
    → After Q r
After-mono P Q (ok (a, db)) f h = f db h
After-mono P Q (err e) f h = tt

pub After-assoc {ℓ} :
    {A B C : Type 0} (P : Db → Type ℓ) (m : Tx A) (g : A → Tx B) (f : B → Tx C) (db : Db)
    → After P ((m >>= λ a. g a >>= f) db)
    → After P ((m >>= g >>= f) db)
After-assoc {A} P m g f db h = regroup (m db) h
  where
    regroup :
        (r : Result (A × Db))
        → After P (continue r (λ a. g a >>= f))
        → After P (continue (continue r g) f)
    regroup (ok (a, db')) h = h
    regroup (err e) h = tt
