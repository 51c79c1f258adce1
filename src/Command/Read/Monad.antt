-- ===== src/Command/Read/Monad.antt =====
-- State and errors of the readers. What a failing reader has filled in so far stays in the command.
use sofa_bolt_go.SimpleMap.{DecodeError}
use sofa_bolt_go.Command.{Command}

-- An error of the reader or of the header map, ErrMalformedProto, ErrMalformedType; or a panic.
pub data Failure (E : Type 0) : Type 0 where
  io : E → Failure E
  bad_headers : DecodeError → Failure E
  malformed_proto malformed_type panicked : Failure E

pub data Result (E : Type 0) (A : Type 0) : Type 0 where
  ok : A → Result E A
  err : Failure E → Result E A

pub record ReadState (R : Type 0) : Type 0 where
  pub cmd : Command
  pub br : R

abbrev pub M : Type 0 → Type 0 → Type 0 → Type 0
M E R A = ReadState R → Result E A × ReadState R

module _ {E R : Type 0} where
  abbrev pub continue :
      {A B : Type 0} → (A → M E R B) → Result E A → ReadState R → Result E B × ReadState R
  continue f (ok a) s = f a s
  continue f (err e) s = (err e, s)

  infixl 5 ◌>>=◌ ◌>>◌
  abbrev pub ◌>>=◌ : {A B : Type 0} → M E R A → (A → M E R B) → M E R B
  ◌>>=◌ m f s = let r = m s in continue f r.0 r.1

  abbrev pub ◌>>◌ : {B : Type 0} → M E R (Unit {0}) → M E R B → M E R B
  ◌>>◌ m k = m >>= λ _. k

  abbrev pub pure : {A : Type 0} → A → M E R A
  pure a s = (ok a, s)

  abbrev pub fail : {A : Type 0} → Failure E → M E R A
  fail e s = (err e, s)

  abbrev pub get_cmd : M E R Command
  get_cmd s = (ok s.cmd, s)

  abbrev pub modify : (Command → Command) → M E R (Unit {0})
  modify f s = (ok tt, record s { cmd = f s.cmd })
