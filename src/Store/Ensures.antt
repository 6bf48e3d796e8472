-- ===== src/Store/Ensures.antt =====
-- Postconditions of transactions, with a rule for each way to build one.
use schedule_appointments.Base.{◌≡◌, refl, Bool, true, false, Option, none, some, if◌then◌else◌}
use schedule_appointments.Errors.{Result, ok, err, DomainError}
use schedule_appointments.Store.Tables.{Db, Tx, continue, ◌>>=◌, lift, require, reject_if}

-- A transaction that succeeds ends in `Q`; one that raises is rolled back.
abbrev pub Ensures {κ} : {A : Type 0} → Result (A × Db) → (A → Db → Type κ) → Type κ
Ensures (ok (a, db)) Q = Q a db
Ensures (err e) Q = Unit

module _ {κ} {A B : Type 0} where
  pub Ensures-bind :
      (m : Tx A) (f : A → Tx B) (db : Db) (P : A → Db → Type κ) (Q : B → Db → Type κ)
      → Ensures (m db) P
      → ((a : A) (db' : Db) → P a db' → Ensures (f a db') Q)
      → Ensures ((m >>= f) db) Q
  Ensures-bind m f db P Q h k = step (m db) h
    where
      step : (r : Result (A × Db)) → Ensures r P → Ensures (continue r f) Q
      step (ok (a, db')) p = k a db' p
      step (err e) p = tt

module _ {κ} {A B : Type 0} where
  pub Ensures-lift :
      (r : Result A) (f : A → Tx B) (db : Db) (Q : B → Db → Type κ)
      → ((a : A) → r ≡ ok a → Ensures (f a db) Q)
      → Ensures ((lift r >>= f) db) Q
  Ensures-lift (ok a) f db Q h = h a refl
  Ensures-lift (err e) f db Q h = tt

  pub Ensures-require :
      (o : Option A) (e : DomainError) (f : A → Tx B) (db : Db) (Q : B → Db → Type κ)
      → ((a : A) → o ≡ some a → Ensures (f a db) Q)
      → Ensures ((require o e >>= f) db) Q
  Ensures-require none e f db Q h = tt
  Ensures-require (some a) e f db Q h = h a refl

module _ {κ} {B : Type 0} where
  pub Ensures-reject_if :
      (b : Bool) (e : DomainError) (k : Tx B) (db : Db) (Q : B → Db → Type κ)
      → (b ≡ false → Ensures (k db) Q)
      → Ensures ((reject_if b e >>= λ _. k) db) Q
  Ensures-reject_if true e k db Q h = tt
  Ensures-reject_if false e k db Q h = h refl

module _ {κ} where
  pub Ensures-check :
      (b : Bool) (e : DomainError) (db : Db) (Q : Unit {0} → Db → Type κ)
      → (b ≡ false → Q tt db)
      → Ensures (reject_if b e db) Q
  Ensures-check true e db Q h = tt
  Ensures-check false e db Q h = h refl

module _ {κ} {A : Type 0} where
  pub Ensures-map :
      (r : Result (A × Db)) (P Q : A → Db → Type κ)
      → Ensures r P
      → ((a : A) (db : Db) → P a db → Q a db)
      → Ensures r Q
  Ensures-map (ok (a, db)) P Q h k = k a db h
  Ensures-map (err e) P Q h k = tt

  pub Ensures-if :
      (b : Bool) (x y : Tx A) (db : Db) (Q : A → Db → Type κ)
      → (b ≡ true → Ensures (x db) Q)
      → (b ≡ false → Ensures (y db) Q)
      → Ensures ((if b then x else y) db) Q
  Ensures-if true x y db Q h k = h refl
  Ensures-if false x y db Q h k = k refl
