-- ===== src/Client/Invariant/Tables.antt =====
-- Tables: what a change of one entry, of all, or a new entry does to their invariants.
use jcode_go.Common.{ℕ, ◌<◌, inl, inr, Option, none, some, arith, ◌==◌, Bool-cases}
use jcode_go.Client.State.{Table, enter, alter, each}
use jcode_go.Client.Invariant.{Holds, Every, Fresh}

module _ {A : Type 0} (P : A → Type 0) where
  Holds-map :
      (f : A → A)
      → ((a : A) → P a → P (f a))
      → (o : Option A) → Holds P o
      → Holds P (each f (λ (k : ℕ). o) 0)
  Holds-map f keep none h = tt
  Holds-map f keep (some a) h = keep a h

  pub Every-each :
      (f : A → A) (m : Table A) → ((a : A) → P a → P (f a)) → Every P m → Every P (each f m)
  Every-each f m keep h id = Holds-map f keep (m id) (h id)

  pub Every-alter :
      (f : A → A) (k : ℕ) (m : Table A)
      → ((a : A) → P a → P (f a))
      → Every P m
      → Every P (alter f k m)
  Every-alter f k m keep h id = elim (Bool-cases (k == id)) [
    | inl e ↦ rw e (Holds-map f keep (m id) (h id))
    | inr e ↦ rw e (h id)
  ]

  pub Every-enter : (k : ℕ) (a : A) (m : Table A) → P a → Every P m → Every P (enter m k a)
  Every-enter k a m new h id = elim (Bool-cases (k == id)) [
    | inl e ↦ rw e new
    | inr e ↦ rw e (h id)
  ]

module _ {A : Type 0} where
  pub Fresh-each : (f : A → A) (n : ℕ) (m : Table A) → Fresh n m → Fresh n (each f m)
  Fresh-each f n m h id l = rw (h id l)

  pub Fresh-alter : (f : A → A) (k n : ℕ) (m : Table A) → Fresh n m → Fresh n (alter f k m)
  Fresh-alter f k n m h id l = ground (arith, h id l)

  pub Fresh-enter : (a : A) (n k : ℕ) (m : Table A) → n < k → Fresh n m → Fresh k (enter m k a)
  Fresh-enter a n k m l h id g = ground (arith, h id)
