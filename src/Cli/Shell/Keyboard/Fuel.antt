-- ===== src/Cli/Shell/Keyboard/Fuel.antt =====
-- cmd/dlvpp/loop.go: the loop over the keys reads every input that it is given.
use dlvpp.Base.{
  ℕ, zero, suc, ◌≤◌, ◌<◌, ◌≡◌, refl, Bool, true, false, List, [], ◌∷◌, inl, inr, Bool-cases, Option,
  length, ◌==◌, arith,
}
use dlvpp.Base.Fault.{Error, Result, ok, err}
use dlvpp.Cli.Shell.{Runner, Env}
use dlvpp.Cli.Shell.Loops.{unless_done}
use dlvpp.Cli.Shell.Terminal.{
  KeyInput, byte, quiet, fault, Terminal, key_of_sequence, read_tty_escape_key, is_over,
}
use dlvpp.Cli.Shell.Keyboard.{handle_byte, key_loop}

-- A sequence takes bytes from the front.
key_of_sequence-length :
    (inputs : List KeyInput) → length (key_of_sequence inputs).1 ≤ length inputs
unfolding key_of_sequence
key_of_sequence-length [] = omega arith
key_of_sequence-length (quiet ∷ inputs) = omega arith
key_of_sequence-length (fault e ∷ inputs) = omega arith
key_of_sequence-length (byte b ctx ∷ inputs) = omega arith

pub read-length : (inputs : List KeyInput) → length (read_tty_escape_key inputs).1 ≤ length inputs
unfolding read_tty_escape_key
read-length [] = omega arith
read-length (quiet ∷ inputs) = omega arith
read-length (fault e ∷ inputs) = omega arith
read-length (byte b ctx ∷ inputs) = elim (Bool-cases (b == 91)) [
  | inl e ↦ rw e (let h = key_of_sequence-length inputs in omega arith)
  | inr e ↦ rw e (omega arith)
]

unless_done_cong :
    {S : Type 0} (r : Result Bool × S) (f g : S → Result (Unit {0}) × S)
    → ((s : S) → f s ≡ g s)
    → unless_done r f ≡ unless_done r g
unless_done_cong (ok true, s) f g h = refl
unless_done_cong (ok false, s) f g h = h s
unless_done_cong (err e, s) f g h = refl

module _ {R : Type 0} (env : Env) (runner : Runner R) where
  handle_byte-length :
      (b : ℕ) (ctx : Option Error) (inputs : List KeyInput) (t : Terminal R)
      → length (handle_byte env runner b ctx inputs t).1 ≤ length inputs
  unfolding handle_byte
  handle_byte-length b ctx inputs t = elim (Bool-cases (is_over t)) [
    | inl e ↦ rw e (omega arith)
    | inr e ↦ rw e (elim (Bool-cases (b == 27)) [
      | inl k ↦ rw k (read-length inputs)
      | inr k ↦ rw k (omega arith)
    ])
  ]

  -- Two amounts of fuel above the length of the input give the same result and the same terminal.
  pub key_loop_enough :
      (n m : ℕ) (inputs : List KeyInput) (t : Terminal R)
      → length inputs < n
      → length inputs < m
      → key_loop env runner n inputs t ≡ key_loop env runner m inputs t
  unfolding key_loop
  key_loop_enough zero m inputs t h k = absurd (omega arith)
  key_loop_enough (suc n) zero inputs t h k = absurd (omega arith)
  key_loop_enough (suc n) (suc m) [] t h k = refl
  key_loop_enough (suc n) (suc m) (quiet ∷ inputs) t h k =
      key_loop_enough n m inputs t (omega arith) (omega arith)
  key_loop_enough (suc n) (suc m) (fault e ∷ inputs) t h k = refl
  key_loop_enough (suc n) (suc m) (byte b ctx ∷ inputs) t h k =
      let short = handle_byte-length b ctx inputs t in
      let rest = (handle_byte env runner b ctx inputs t).1 in
      unless_done_cong (handle_byte env runner b ctx inputs t).0 (key_loop env runner n rest)
        (key_loop env runner m rest) (λ t'. key_loop_enough n m rest t' (omega arith) (omega arith))
