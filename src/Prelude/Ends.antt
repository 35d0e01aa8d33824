-- ===== src/Prelude/Ends.antt =====
-- That a computation ends: it returns or raises, and no loop in it runs out of fuel. One rule for
-- each way to build a computation.
use mathlib.Core.Path.{◌≡◌, refl}
use mathlib.Core.Bool.{Bool, true, false}
use mathlib.Core.Option.{Option, none, some}
use mathlib.Core.Logic.{◌≢◌}
use browserfp.Prelude.Tests.{if◌then◌else◌}
use browserfp.Prelude.Results.{Error, Result, ok, err, stuck, ◌>>=◌, raise_if, or_raise}

pub record Ends {ℓ} {A : Type ℓ} (m : Result A) : Type ℓ where
  pub ends : m ≢ stuck

module _ {ℓ} {A : Type ℓ} where
  pub Ends-ok : (a : A) → Ends (ok a)
  Ends-ok a = record { ends = λ e. cc }

  pub Ends-err : (e : Error) → Ends (let m : Result A = err e in m)
  Ends-err e = record { ends = λ e. cc }

  pub Ends-or_raise : (e : Error) (o : Option A) → Ends (or_raise e o)
  Ends-or_raise e none = Ends-err e
  Ends-or_raise e (some a) = Ends-ok a

  pub Ends-if :
      (b : Bool) (m n : Result A)
      → (b ≡ true → Ends m)
      → (b ≡ false → Ends n)
      → Ends (if b then m else n)
  Ends-if true m n hm hn = hm refl
  Ends-if false m n hm hn = hn refl

pub Ends-raise_if : (b : Bool) (e : Error) → Ends (raise_if b e)
Ends-raise_if true e = Ends-err e
Ends-raise_if false e = Ends-ok tt

module _ {ℓ κ} {A : Type ℓ} {B : Type κ} where
  pub Ends-bind :
      (m : Result A) (f : A → Result B)
      → Ends m
      → ((a : A) → m ≡ ok a → Ends (f a))
      → Ends (m >>= f)
  Ends-bind (ok a) f hm hf = hf a refl
  Ends-bind (err e) f hm hf = Ends-err e
  Ends-bind stuck f hm hf = absurd (hm.ends refl)

pub ruleset ends_rules = (Ends-ok, Ends-err, Ends-or_raise, Ends-if, Ends-raise_if, Ends-bind)
