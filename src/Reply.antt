-- ===== src/Reply.antt =====
-- What a handler of internal/server returns: a response, a gRPC status error (its code; the text of
-- the message is not modelled), or a runtime panic, which ends the process.
use nico_core_mock.Prelude.{Option, none, some}

pub data Code : Type 0 where
  invalid_argument not_found already_exists internal unauthenticated : Code

pub data Reply {ℓ} (A : Type ℓ) : Type ℓ where
  ok : A → Reply A
  err : Code → Reply A
  panic : Reply A

infixl 10 ◌>>=◌
abbrev pub ◌>>=◌ {ℓ κ} : {A : Type ℓ} {B : Type κ} → Reply A → (A → Reply B) → Reply B
ok a >>= f = f a
err c >>= f = err c
panic >>= f = panic

-- How a call ended, without the response.
pub data Ending : Type 0 where
  returned : Ending
  refused : Code → Ending
  crashed : Ending

abbrev pub ending {ℓ} : {A : Type ℓ} → Reply A → Ending
ending (ok a) = returned
ending (err c) = refused c
ending panic = crashed

-- A Find handler, which refuses a nil request and changes nothing.
abbrev pub answer {ℓ κ} : {Q : Type ℓ} {A : Type κ} → Option Q → (Q → A) → Reply A
answer none find = err invalid_argument
answer (some q) find = ok (find q)
