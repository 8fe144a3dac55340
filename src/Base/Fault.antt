-- ===== src/Base/Fault.antt =====
-- Go errors as values: what `errors.Is` and `Error()` can see of them.
use Prim.Native.Nat.{ℕ}
use mathlib.Core.Bool.{Bool, true, false, ◌||◌}
use mathlib.Core.List.{[]}
use dlvpp.Base.Tests.{Bytes}

-- The errors that some code compares by identity.
pub data Sentinel : Type 0 where
  canceled deadline_exceeded eof net_closed unsupported unknown_action quit_loop help : Sentinel

pub data Error : Type 0 where
  sentinel : Sentinel → Error
  -- `errors.New`, `fmt.Errorf` with no `%w`, and errors of other packages.
  text : Bytes → Error
  -- `fmt.Errorf("prefix%wsuffix", err)`.
  wrapped : Bytes → Error → Bytes → Error
  -- `errors.Join` of two errors.
  joined : Error → Error → Error
  -- `exitCodeError{code: code}`, and with an error in it, which `errors.Is` does not see.
  exit_code : ℕ → Error
  exit_with : ℕ → Error → Error

pub data Result {ℓ} (A : Type ℓ) : Type ℓ where
  ok : A → Result A
  err : Error → Result A

abbrev pub eq_sentinel : Sentinel → Sentinel → Bool
eq_sentinel canceled canceled = true
eq_sentinel deadline_exceeded deadline_exceeded = true
eq_sentinel eof eof = true
eq_sentinel net_closed net_closed = true
eq_sentinel unsupported unsupported = true
eq_sentinel unknown_action unknown_action = true
eq_sentinel quit_loop quit_loop = true
eq_sentinel help help = true
eq_sentinel _ _ = false

-- `errors.Is(err, target)`.
unfoldable pub is_error : Error → Sentinel → Bool
is_error (sentinel s) t = eq_sentinel s t
is_error (text m) t = false
is_error (wrapped p e s) t = is_error e t
is_error (joined a b) t = is_error a t || is_error b t
is_error (exit_code c) t = false
is_error (exit_with c e) t = false

abbrev pub wrap_error : Bytes → Error → Error
wrap_error prefix e = wrapped prefix e []

infixl 5 ◌>>=◌
abbrev pub ◌>>=◌ {ℓ κ} : {A : Type ℓ} {B : Type κ} → Result A → (A → Result B) → Result B
ok a >>= f = f a
err e >>= f = err e
