-- ===== src/Changer/World.antt =====
-- The catalog and the kernel together, and the operations on both.
use vtladm.Prelude.{Bool, true, false}
use vtladm.Errors.{Result, ok, err}
use vtladm.Catalog.{Catalog}

pub record World (K : Type 0) : Type 0 where
  pub db : Catalog
  pub kernel : K

-- An operation may fail; what it has done by then stays done.
abbrev pub M : Type 0 → Type 0 → Type 0
M K A = World K → Result A × World K

abbrev pub continue : {K A B : Type 0} → (A → M K B) → Result A → World K → Result B × World K
continue f (ok a) w = f a w
continue f (err e) w = (err e, w)

infixl 5 ◌>>=◌ ◌>>◌
abbrev pub ◌>>=◌ : {K A B : Type 0} → M K A → (A → M K B) → M K B
◌>>=◌ m f w = continue f (m w).0 (m w).1

abbrev pub ◌>>◌ : {K B : Type 0} → M K (Unit {0}) → M K B → M K B
m >> k = m >>= λ _. k

abbrev pub pure : {K A : Type 0} → A → M K A
pure a w = (ok a, w)

abbrev pub lift : {K A : Type 0} → Result A → M K A
lift r w = (r, w)

-- A read of the catalog.
abbrev pub query : {K A : Type 0} → (Catalog → Result A) → M K A
query q w = (q w.db, w)

-- `let _ = …` and `if let Err(e) = … { warn }`: the failure is a value.
abbrev pub attempt : {K A : Type 0} → M K A → M K (Result A)
attempt m w = (ok (m w).0, (m w).1)

abbrev pub commit : {K A : Type 0} → World K → Result (A × Catalog) → Result A × World K
commit w (ok (a, db)) = (ok a, record w { db = db })
commit w (err e) = (err e, w)

-- BEGIN … COMMIT: an error rolls the catalog back.
abbrev pub transact : {K A : Type 0} → (Catalog → Result (A × Catalog)) → M K A
transact f w = commit w (f w.db)

abbrev pub when : {K : Type 0} → Bool → M K (Unit {0}) → M K (Unit {0})
when true m = m
when false m = pure tt
