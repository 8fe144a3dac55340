-- ===== src/Dap/Client/Requests/Loop.antt =====
-- internal/backend/dap/client.go: the rules for the loops that read messages.
use dlvpp.Base.{◌≡◌, ◌∙◌, Bytes, List, [], ◌∷◌, Option, none, some}
use dlvpp.Base.Fault.{Result, ok, err}
use dlvpp.Base.Proc.{Proc, after_keeps, after_ok}
use dlvpp.Dap.Wire.{Response, Codec}
use dlvpp.Dap.Client.{Client, set_inbox}
use dlvpp.Dap.Client.Requests.{read_until, next_round, decoded_message}

-- What a loop keeps: its body keeps it, and so does taking a message off the inbox.
module _ (j : Codec) {A : Type 0} (body : Response → Proc Client (Option A)) (P : Client → Type 0)
    (take_message : (rest : List (Result Bytes)) (c : Client) → P c → P (set_inbox rest c))
    (round : (msg : Response) (c : Client) → P c → P (body msg c).1) where
  next_keeps :
      (o : Option A) (rest : Proc Client A) (c : Client)
      → ((c' : Client) → P c' → P (rest c').1)
      → P c
      → P (next_round o rest c).1
  next_keeps none rest c ih h = ih c h
  next_keeps (some a) rest c ih h = h

  pub read_until_keeps :
      (inbox : List (Result Bytes)) (c : Client) → P c → P (read_until j body inbox c).1
  unfolding read_until
  read_until_keeps [] c h = take_message [] c h
  read_until_keeps (err e ∷ rest) c h = take_message rest c h
  read_until_keeps (ok payload ∷ rest) c h =
      after_keeps P (decoded_message (j.decode_message payload), set_inbox rest c) _
        (take_message rest c h)
        λ msg c' h'.
          after_keeps P (body msg c') _ (round msg c' h')
            λ o c'' h''. next_keeps o (read_until j body rest) c'' (read_until_keeps rest) h''

-- What a loop's result satisfies: what its last round returned.
module _ (j : Codec) {A : Type 0} (body : Response → Proc Client (Option A))
    (Q : A → Client → Type 0)
    (last : (msg : Response) (c : Client) (a : A) (c' : Client)
      → body msg c ≡ (ok (some a), c')
      → Q a c') where
  next_ok :
      (msg : Response) (o : Option A) (rest : Proc Client A) (c c' c'' : Client) (a : A)
      → body msg c ≡ (ok o, c')
      → (rest c' ≡ (ok a, c'') → Q a c'')
      → next_round o rest c' ≡ (ok a, c'')
      → Q a c''
  next_ok msg none rest c c' c'' a e ih h = ih h
  next_ok msg (some b) rest c c' c'' a e ih h = last msg c a c'' (e ∙ cc)

  pub read_until_ok :
      (inbox : List (Result Bytes)) (c : Client) (a : A) (c' : Client)
      → read_until j body inbox c ≡ (ok a, c')
      → Q a c'
  unfolding read_until
  read_until_ok [] c a c' h = cc
  read_until_ok (err e ∷ rest) c a c' h = cc
  read_until_ok (ok payload ∷ rest) c a c' h =
      let (msg, c₁, e₁, h₁) =
        after_ok (decoded_message (j.decode_message payload), set_inbox rest c) _ h in
      let (o, c₂, e₂, h₂) = after_ok (body msg c₁) _ h₁ in
      next_ok msg o (read_until j body rest) c₁ c₂ c' a e₂ (read_until_ok rest c₂ a c') h₂
