-- ===== src/Base/Proc.antt =====
-- Methods of a shared object that may fail: what was written before a failure stays written.
use mathlib.Core.Path.{◌≡◌, refl}
use mathlib.Core.Logic.{◌⊎◌, inl, inr}
use dlvpp.Base.Fault.{Error, Result, ok, err}

abbrev pub Proc {ℓ} : Type ℓ → Type ℓ → Type ℓ
Proc S A = S → Result A × S

module _ {ℓ} {S A : Type ℓ} where
  abbrev pub pure : A → Proc S A
  pure a s = (ok a, s)

  abbrev pub fail : Error → Proc S A
  fail e s = (err e, s)

  abbrev pub lift : Result A → Proc S A
  lift r s = (r, s)

  abbrev pub gets : (S → A) → Proc S A
  gets f s = (ok (f s), s)

  -- `if err != nil { return handle(err) }`.
  abbrev pub recover : Result A × S → (Error → Proc S A) → Result A × S
  recover (ok a, s) h = (ok a, s)
  recover (err e, s) h = h e s

abbrev pub modify {ℓ} : {S : Type ℓ} → (S → S) → Proc S (Unit {ℓ})
modify f s = (ok tt, f s)

module _ {ℓ} {S A B : Type ℓ} where
  abbrev pub after : Result A × S → (A → Proc S B) → Result B × S
  after (ok a, s) f = f a s
  after (err e, s) f = (err e, s)

  infixl 5 ◌>>=◌ ◌>>◌
  abbrev pub ◌>>=◌ : Proc S A → (A → Proc S B) → Proc S B
  ◌>>=◌ m f s = after (m s) f

  abbrev pub ◌>>◌ : Proc S A → Proc S B → Proc S B
  m >> n = m >>= λ _. n

-- What both parts of a sequence keep, the sequence keeps, whether or not it fails.
module _ {ℓ κ} {S A B : Type ℓ} (P : S → Type κ) where
  pub after_keeps :
      (m : Result A × S) (f : A → Proc S B)
      → P m.1
      → ((a : A) (s : S) → P s → P (f a s).1)
      → P (after m f).1
  after_keeps (ok a, s) f h k = k a s h
  after_keeps (err e, s) f h k = h

module _ {ℓ κ} {S A : Type ℓ} (P : S → Type κ) where
  pub recover_keeps :
      (m : Result A × S) (h : Error → Proc S A)
      → P m.1
      → ((e : Error) (s : S) → P s → P (h e s).1)
      → P (recover m h).1
  recover_keeps (ok a, s) h p k = p
  recover_keeps (err e, s) h p k = k e s p

-- A sequence that succeeds has both parts succeed.
module _ {ℓ} {S A B : Type ℓ} where
  pub after_ok :
      (m : Result A × S) (f : A → Proc S B) {b : B} {s' : S}
      → after m f ≡ (ok b, s')
      → (a : A) × (s : S) × (m ≡ (ok a, s)) × (f a s ≡ (ok b, s'))
  after_ok (ok a, s) f h = (a, s, refl, h)
  after_ok (err e, s) f h = cc

  -- A sequence that fails has one of its parts fail.
  pub after_err :
      (m : Result A × S) (f : A → Proc S B) {e : Error} {s' : S}
      → after m f ≡ (err e, s')
      → (m ≡ (err e, s')) ⊎ ((a : A) × (s : S) × (m ≡ (ok a, s)) × (f a s ≡ (err e, s')))
  after_err (ok a, s) f h = inr (a, s, refl, h)
  after_err (err e, s) f h = inl cc
