-- ===== src/Base/Results.antt =====
-- `Result` with the operator `?`, and the conversions of the standard library.
use mathlib.Core.Option.{Option, none, some}
use mcu_runtime.Base.Tests.{Result, ok, err}

infixl 5 ◌>>=◌
abbrev pub ◌>>=◌ {ℓ κ μ} :
    {A : Type ℓ} {B : Type κ} {E : Type μ} → Result A E → (A → Result B E) → Result B E
ok a >>= f = f a
err e >>= f = err e

-- `Option::ok_or` and `Result::map_err`.
abbrev pub ok_or {ℓ κ} : {A : Type ℓ} {E : Type κ} → Option A → E → Result A E
ok_or none e = err e
ok_or (some a) e = ok a

abbrev pub map_err {ℓ κ μ} :
    {A : Type ℓ} {D : Type κ} {E : Type μ} → (D → E) → Result A D → Result A E
map_err f (ok a) = ok a
map_err f (err d) = err (f d)
