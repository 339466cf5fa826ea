-- ===== src/Api/Privacy/Returns.antt =====
-- What the value of an action satisfies, if the action returns one.
use lexi_ledger_backend.Base.{Option, none, some, Bool, true, false, if◌then◌else◌}
use lexi_ledger_backend.Platform.{
  World, Action, Result, ok, err, Exception, pure, throw, throw_if, ◌>>=◌, ◌>>◌, refuse, PrismaCode,
}

abbrev pub Holds : {A : Type 0} → (A → Type 0) → Result A → Type 0
Holds P (ok a) = P a
Holds P (err e) = Unit

pub record Returns {A : Type 0} (P : A → Type 0) (m : Action A) : Type 0 where
  pub at : (w : World) → Holds P (m w).0

module _ {A : Type 0} {P : A → Type 0} where
  pub Returns-pure : (a : A) → P a → Returns P (pure a)
  Returns-pure a h = record { at = λ w. h }

  pub Returns-throw : (e : Exception) → Returns P (throw e)
  Returns-throw e = record { at = λ w. tt }

  pub Returns-if :
      (b : Bool) (m n : Action A) → Returns P m → Returns P n → Returns P (if b then m else n)
  Returns-if true m n km kn = km
  Returns-if false m n km kn = kn

  pub Returns-unless :
      (c : Bool) (e : Exception) (m : Action A) → Returns P m → Returns P (throw_if c e >> m)
  Returns-unless true e m h = record { at = λ w. tt }
  Returns-unless false e m h = record { at = h.at }

  pub Returns-accepted :
      (o : Option PrismaCode) (m : Action A) → Returns P m → Returns P (refuse o >> m)
  Returns-accepted none m h = record { at = h.at }
  Returns-accepted (some code) m h = record { at = λ w. tt }

module _ {A B : Type 0} {P : A → Type 0} {Q : B → Type 0} where
  continue :
      (r : Result A) (w : World) (f : A → Action B)
      → Holds P r
      → ((a : A) → P a → Returns Q (f a))
      → Holds Q (elim r as (λ _. Result B × World) [ ok a ↦ f a w | err e ↦ (err e, w) ]).0
  continue (ok a) w f h k = (k a h).at w
  continue (err e) w f h k = tt

  pub Returns-bind :
      (m : Action A) (f : A → Action B)
      → Returns P m
      → ((a : A) → P a → Returns Q (f a))
      → Returns Q (m >>= f)
  Returns-bind m f h k = record { at = λ w. continue (m w).0 (m w).1 f (h.at w) k }

-- An action of which nothing is asked.
pub Returns-any : {A : Type 0} (m : Action A) → Returns (λ a. Unit {0}) m
Returns-any m = record { at = λ w. any_result (m w).0 }
  where
    any_result : {A : Type 0} (r : Result A) → Holds (λ a. Unit {0}) r
    any_result (ok a) = tt
    any_result (err e) = tt
