-- ===== src/Sla.antt =====
-- SLA policy and settlement (app/services/sla): the process-wide policy dictionaries of config.py,
-- their results and errors, and the lower-casing of severities.
pub mod Config
pub mod Lowered
pub mod Published
pub mod Swapped
pub mod Calculator
pub mod Amounts
pub mod Intervals
mod Tests
use Prim.Native.Char.{Char, code}
use Prim.Native.String.{char_at}
use apex_chainx_backend.Common.{
  ℕ, ◌-◌, Bool, String, Bool, ◌&&◌, leb, if◌then◌else◌, Dict, ◌≡◌, refl, Option, none, some,
}

-- `ValueError`, `ConcurrencyError`, `KeyError` and `AttributeError`.
pub data Error : Type 0 where
  value_error concurrency_error key_error attribute_error : Error

pub data Result {ℓ} (A : Type ℓ) : Type ℓ where
  err : Error → Result A
  ok : A → Result A

infixl 5 ◌>>=◌ ◌>>◌
abbrev pub ◌>>=◌ {ℓ κ} : {A : Type ℓ} {B : Type κ} → Result A → (A → Result B) → Result B
err e >>= next = err e
ok a >>= next = next a

abbrev pub ◌>>◌ {ℓ} : {B : Type ℓ} → Result (Unit {0}) → Result B → Result B
m >> k = m >>= λ _. k

abbrev pub or_raise {ℓ} : {A : Type ℓ} → Option A → Error → Result A
or_raise none e = err e
or_raise (some a) e = ok a

-- `SLASeverityConfig`: the fields are constrained to be 0 or more (app/models/sla.py).
pub record SeverityConfig : Type 0 where
  pub threshold_minutes : ℕ
  pub penalty_per_minute : ℕ
  pub reward_base : ℕ

-- `SLA_CONFIG`, `_policy_versions` and `_publish_tokens`.
pub record Policies : Type 0 where
  pub sla_config : Dict SeverityConfig
  pub policy_versions : Dict ℕ
  pub publish_tokens : Dict String

abbrev pub is_upper : Char → Bool
is_upper c = leb b'A' (code c) && leb (code c) b'Z'

abbrev pub lower_letter : ℕ → Char
lower_letter n = char_at "abcdefghijklmnopqrstuvwxyz" n

abbrev pub lower_char : Char → Char
lower_char c = if is_upper c then lower_letter (code c - b'A') else c

-- `str.lower` on the ASCII letters.
unfoldable pub lower : String → String
lower String.[] = String.[]
lower (String.◌∷◌ c s) = String.◌∷◌ (lower_char c) (lower s)

lower_test : lower "Critical-9" ≡ "critical-9"
unfolding lower
lower_test = refl
