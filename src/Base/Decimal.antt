-- ===== src/Base/Decimal.antt =====
-- `std::to_string` at a number that is not negative.
use Prim.Native.Nat.{ℕ, zero, suc, ◌+◌, ◌-◌, ◌*◌, ◌/◌, ◌%◌, ◌<◌}
use mathlib.Core.Path.{◌≡◌, ◌∙◌, sym, ap}
use mathlib.Core.List.{[], ◌∷◌}
use native.Mathlib.Omega.{arith}
use embedded_agent.Base.Tests.{ltb, if◌then◌else◌}
use embedded_agent.Base.Text.{Bytes}

-- The digits of `n` in front of `out`, last digit first; `n + 1` rounds are enough.
digits : ℕ → ℕ → Bytes → Bytes
digits zero n out = out
digits (suc fuel) n out =
    let more = digits fuel (n / 10) ((b'0' + n % 10) ∷ out) in
    if ltb n 10 then (b'0' + n) ∷ out else more

unfoldable pub to_string : ℕ → Bytes
unfolding digits
to_string n = digits (suc n) n []

-- The number that digits spell behind `n`.
value : Bytes → ℕ → ℕ
value [] n = n
value (c ∷ s) n = value s (n * 10 + (c - b'0'))

value-digits : (fuel n : ℕ) (out : Bytes) → n < fuel → value (digits fuel n out) 0 ≡ value out n
unfolding digits value
value-digits zero n out h = absurd (omega arith)
value-digits (suc fuel) n out h = ground (arith, value-digits fuel (n / 10) ((b'0' + n % 10) ∷ out))

-- Different numbers have different texts.
pub to_string-injective : (m n : ℕ) → to_string m ≡ to_string n → m ≡ n
unfolding to_string value
to_string-injective m n e =
    sym (value-digits (suc m) m [] (omega arith))
    ∙ ap (λ s. value s 0) e
    ∙ value-digits (suc n) n [] (omega arith)
