-- ===== src/Common/Str.antt =====
-- Python's `str` of a non-negative integer.
use Prim.Native.Nat.{ℕ, zero, suc, ◌+◌, ◌/◌, ◌%◌}
use Prim.Native.String.{String, ◌++◌}
use ecommerce_services.Common.Tests.{ltb, if◌then◌else◌}

-- One decimal digit.
abbrev digit : ℕ → String
digit zero = "0"
digit (suc zero) = "1"
digit (suc (suc zero)) = "2"
digit (suc (suc (suc zero))) = "3"
digit (suc (suc (suc (suc zero)))) = "4"
digit (suc (suc (suc (suc (suc zero))))) = "5"
digit (suc (suc (suc (suc (suc (suc zero)))))) = "6"
digit (suc (suc (suc (suc (suc (suc (suc zero))))))) = "7"
digit (suc (suc (suc (suc (suc (suc (suc (suc zero)))))))) = "8"
digit _ = "9"

-- A number has fewer digits than its value plus one, so that fuel is enough.
str_digits : ℕ → ℕ → String
str_digits zero n = ""
str_digits (suc fuel) n =
    let front = str_digits fuel (n / 10) in if ltb n 10 then digit n else front ++ digit (n % 10)

unfoldable pub str : ℕ → String
unfolding str_digits
str n = str_digits (n + 1) n
