-- ===== src/Errors.antt =====
-- rust/crates/luck-core/src/error.rs: `LuckError`. A message is the list of the fragments that
-- `format!` joins: a literal, a number, or a value in its `Debug` form; their rendering into one
-- string is not modelled. The payloads of `Json`, `Url` and `Io` belong to other crates.
use Prim.Native.String.{String}
use luck_editor.Prelude.{ℕ, List, [], ◌∷◌}
use luck_editor.Text.{Text}

pub data Fragment : Type 0 where
  lit : String → Fragment
  num : ℕ → Fragment
  text : Text → Fragment
  debug : Text → Fragment

abbrev pub Message : Type 0
Message = List Fragment

-- A message without arguments.
abbrev pub msg : String → Message
msg s = lit s ∷ []

pub data LuckError : Type 0 where
  empty_input : LuckError
  input_too_large : ℕ → ℕ → LuckError
  too_many_cookies : ℕ → ℕ → LuckError
  unsupported_format : LuckError
  json : LuckError
  url : LuckError
  validation : Message → LuckError
  serialization : Message → LuckError
  query : ℕ → Message → LuckError
  invalid_argument : Message → LuckError
  io : LuckError

-- `Result<T>`
pub data Result {ℓ} (A : Type ℓ) : Type ℓ where
  ok : A → Result A
  err : LuckError → Result A

infixl 5 ◌>>=◌
abbrev pub ◌>>=◌ {ℓ κ} : {A : Type ℓ} {B : Type κ} → Result A → (A → Result B) → Result B
ok a >>= f = f a
err e >>= f = err e
