-- ===== src/Platform/Keeps.antt =====
-- Invariants of actions: `m` keeps `P`, whether it returns or throws.
use lexi_ledger_backend.Base.{Option, none, some, Bool, true, false, if◌then◌else◌}
use lexi_ledger_backend.Platform.Monad.{
  World, Result, ok, err, Exception, Action, PrismaCode, ◌>>=◌, ◌>>◌, pure, throw, gets,
}
use lexi_ledger_backend.Platform.Services.{refuse}

pub record Keeps {A : Type 0} (P : World → Type 0) (m : Action A) : Type 0 where
  pub at : (w : World) → P w → P (m w).1

module _ {P : World → Type 0} where
  pub Keeps-pure : {A : Type 0} (a : A) → Keeps P (pure a)
  Keeps-pure a = record { at = λ w h. h }

  pub Keeps-throw : {A : Type 0} (e : Exception) → Keeps P (throw {A = A} e)
  Keeps-throw e = record { at = λ w h. h }

  pub Keeps-gets : {A : Type 0} (f : World → A) → Keeps P (gets f)
  Keeps-gets f = record { at = λ w h. h }

  pub Keeps-if :
      {A : Type 0} (b : Bool) (m n : Action A)
      → Keeps P m
      → Keeps P n
      → Keeps P (if b then m else n)
  Keeps-if true m n km kn = km
  Keeps-if false m n km kn = kn

  pub Keeps-accepted :
      {A : Type 0} (o : Option PrismaCode) (m : Action A) → Keeps P m → Keeps P (refuse o >> m)
  Keeps-accepted none m h = record { at = h.at }
  Keeps-accepted (some code) m h = record { at = λ w k. k }

  continue :
      {A B : Type 0} (r : Result A) (w : World) (f : A → Action B)
      → ((a : A) → Keeps P (f a))
      → P w
      → P (elim r as (λ _. Result B × World) [ ok a ↦ f a w | err e ↦ (err e, w) ]).1
  continue (ok a) w f kf h = (kf a).at w h
  continue (err e) w f kf h = h

  pub Keeps-bind :
      {A B : Type 0} (m : Action A) (f : A → Action B)
      → Keeps P m
      → ((a : A) → Keeps P (f a))
      → Keeps P (m >>= f)
  Keeps-bind m f km kf = record { at = λ w h. continue (m w).0 (m w).1 f kf (km.at w h) }
