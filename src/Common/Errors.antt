-- ===== src/Common/Errors.antt =====
-- Go errors: `fmt.Errorf("…: %w", err)` keeps the error it wraps, for `errors.Is` to find.
use Prim.Native.Nat.{ℕ}
use Prim.Native.String.{String}

-- What the format puts in front of `%w`: its text, and the value that it prints with `%q` or `%d`.
pub data Context : Type 0 where
  text : String → Context
  quoted : String → String → Context
  numbered : String → ℕ → Context

-- `E` are the errors that libraries and remote services return.
pub data Error (E : Type 0) : Type 0 where
  cause : E → Error E
  message : String → Error E
  message_of : String → String → Error E
  wrap : Context → Error E → Error E
