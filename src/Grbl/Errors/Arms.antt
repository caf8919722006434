-- ===== src/Grbl/Errors/Arms.antt =====
-- src/grbl/errors.rs: one arm of a `match` on a code.
use Prim.Native.String.{String}
use raydriver.Base.{ℕ, List, [], ◌∷◌, Option, none, some, ◌==◌, if◌then◌else◌}
use raydriver.Base.Int.{ℤ, pos, negsuc}
use raydriver.Device.{DeviceError}
use raydriver.Text.Utf8.{codes}

-- The code that the arm matches, and the arguments of its `DeviceError::new`. The texts stay
-- literals until an error is made.
pub record Arm : Type 0 where
  pub matches : ℕ
  pub code : ℕ
  pub title : String
  pub description : String

abbrev pub arm : ℕ → ℕ → String → String → Arm
arm matches code title description = record {
  matches = matches;
  code = code;
  title = title;
  description = description;
}

abbrev pub error_of : Arm → DeviceError
error_of a = record { code = pos a.code; title = codes a.title; description = codes a.description }

-- `match code { … }`, first match.
unfoldable pub match_arms : List Arm → ℕ → Option DeviceError
match_arms [] n = none
match_arms (a ∷ arms) n = if n == a.matches then some (error_of a) else match_arms arms n

-- No arm matches a negative code.
unfoldable pub match_code : List Arm → ℤ → Option DeviceError
unfolding match_arms
match_code arms (pos n) = match_arms arms n
match_code arms (negsuc n) = none
