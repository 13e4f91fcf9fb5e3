-- ===== src/Effect.antt =====
-- Functions that read and write a store and may raise. What was written before a raise stays
-- written; `transaction` (backend/src/mouseion/db.py) rolls it back.
use mouseion.Prelude.{ap, Bool, true, false, Option, none, some, ◌≡◌, refl, ◌⊎◌, inl, inr}

pub data Result {ℓ} (E A : Type ℓ) : Type ℓ where
  ok : A → Result E A
  err : E → Result E A

abbrev pub Exec {ℓ} : Type ℓ → Type ℓ → Type ℓ → Type ℓ
Exec S E A = S → Result E A × S

module _ {ℓ} {S E A : Type ℓ} where
  abbrev pub pure : A → Exec S E A
  pure a s = (ok a, s)

  abbrev pub raise : E → Exec S E A
  raise e s = (err e, s)

  abbrev pub gets : (S → A) → Exec S E A
  gets f s = (ok (f s), s)

  abbrev pub or_raise : Option A → E → Exec S E A
  or_raise none e = raise e
  or_raise (some a) e = pure a

  -- `with transaction(conn):`; an exception leaves the store of the start.
  abbrev pub transaction : Exec S E A → Exec S E A
  transaction m s = let (r, s') = m s in elim r [ ok a ↦ (ok a, s') | err e ↦ (err e, s) ]

module _ {ℓ} {S E : Type ℓ} where
  abbrev pub raise_if : Bool → E → Exec S E Unit
  raise_if true e = raise e
  raise_if false e = pure tt

  abbrev pub modify : (S → S) → Exec S E Unit
  modify f s = (ok tt, f s)

module _ {ℓ} {S E A B : Type ℓ} where
  infixl 5 ◌>>=◌ ◌>>◌
  abbrev pub ◌>>=◌ : Exec S E A → (A → Exec S E B) → Exec S E B
  ◌>>=◌ m f s = let (r, s') = m s in elim r [ ok a ↦ f a s' | err e ↦ (err e, s') ]

  abbrev pub ◌>>◌ : Exec S E A → Exec S E B → Exec S E B
  m >> k = m >>= λ _. k

pub Result-cases {ℓ} :
    {E A : Type ℓ} (r : Result E A) → ((a : A) × (r ≡ ok a)) ⊎ ((e : E) × (r ≡ err e))
Result-cases (ok a) = inl (a, refl)
Result-cases (err e) = inr (e, refl)

-- An action keeps `P`, whether it returns or raises.
abbrev pub Keeps {ℓ κ} : {S E A : Type ℓ} → (S → Type κ) → Exec S E A → Type (ℓ ⊔ κ)
Keeps {S = S} P m = (s : S) → P s → P (m s).1

module _ {ℓ κ} {S E A : Type ℓ} (P : S → Type κ) where
  pub Keeps-transaction : (m : Exec S E A) → Keeps P m → Keeps P (transaction m)
  Keeps-transaction m k s h = go (m s) (k s h)
    where
      go :
          (p : Result E A × S)
          → P p.1
          → P (elim p.0 as (λ _. Result E A × S) [ ok a ↦ (ok a, p.1) | err e ↦ (err e, s) ]).1
      go (ok a, s') h' = h'
      go (err e, s') h' = h

  pub Keeps-or_raise : (o : Option A) (e : E) → Keeps P (or_raise {S = S} o e)
  Keeps-or_raise none e s h = h
  Keeps-or_raise (some a) e s h = h

module _ {ℓ κ} {S E : Type ℓ} (P : S → Type κ) where
  pub Keeps-raise_if : (b : Bool) (e : E) → Keeps P (raise_if {S = S} b e)
  Keeps-raise_if true e s h = h
  Keeps-raise_if false e s h = h

module _ {ℓ κ} {S E A B : Type ℓ} (P : S → Type κ) where
  pub Keeps-bind :
      (m : Exec S E A) (f : A → Exec S E B)
      → Keeps P m
      → ((a : A) → Keeps P (f a))
      → Keeps P (m >>= f)
  Keeps-bind m f km kf s h = go (m s) (km s h)
    where
      go :
          (p : Result E A × S)
          → P p.1
          → P (elim p.0 as (λ _. Result E B × S) [ ok a ↦ f a p.1 | err e ↦ (err e, p.1) ]).1
      go (ok a, s') h' = kf a s' h'
      go (err e, s') h' = h'

-- What follows an action that returned.
pub bind_ok {ℓ} :
    {S E A B : Type ℓ} (m : Exec S E A) (f : A → Exec S E B) (s s' : S) (a : A)
    → m s ≡ (ok a, s')
    → (m >>= f) s ≡ f a s'
bind_ok {S = S} {E = E} {A = A} {B = B} m f s s' a e =
    ap
      (λ (p : Result E A × S). elim p.0 as (λ _. Result E B × S) [
        | ok a ↦ f a p.1
        | err e ↦ (err e, p.1)
      ])
      e

-- A transaction that returns keeps what was written.
pub transaction_ok {ℓ} :
    {S E A : Type ℓ} (m : Exec S E A) (s s' : S) (a : A)
    → m s ≡ (ok a, s')
    → transaction m s ≡ (ok a, s')
transaction_ok {S = S} {E = E} {A = A} m s s' a e =
    ap
      (λ (p : Result E A × S). elim p.0 as (λ _. Result E A × S) [
        | ok a ↦ (ok a, p.1)
        | err e ↦ (err e, s)
      ])
      e

-- Nothing follows an action that raised.
pub bind_err {ℓ} :
    {S E A B : Type ℓ} (m : Exec S E A) (f : A → Exec S E B) (s s' : S) (x : E)
    → m s ≡ (err x, s')
    → (m >>= f) s ≡ (err x, s')
bind_err {S = S} {E = E} {A = A} {B = B} m f s s' x e =
    ap
      (λ (p : Result E A × S). elim p.0 as (λ _. Result E B × S) [
        | ok a ↦ f a p.1
        | err e ↦ (err e, p.1)
      ])
      e

pub ok_inj {ℓ} : {E A : Type ℓ} (a b : A) → Path (Result E A) (ok a) (ok b) → a ≡ b
ok_inj a b e = ap (λ r. elim r [ ok x ↦ x | err y ↦ a ]) e
