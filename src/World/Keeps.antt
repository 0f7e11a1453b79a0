-- ===== src/World/Keeps.antt =====
-- Invariants of actions: a rule for each way to build one.
use den_kit_stash.Base.{Bool, true, false, if◌then◌else◌}
use den_kit_stash.World.{
  Env, World, Action, Error, Result, ok, err, pure, raise, lift, time_now, ◌>>=◌, ◌or_fail◌,
  attempt, ◌then_always◌, continue,
}

-- The action keeps `P`, whether it succeeds or fails.
pub record Keeps {e : Env} {E A : Type 0} (P : World e → Type 0) (m : Action e E A) : Type 0 where
  pub at : (w : World e) → P w → P (m w).1

module _ {e : Env} {P : World e → Type 0} where
  pub Keeps-pure : {E A : Type 0} (a : A) → Keeps {E = E} P (pure a)
  Keeps-pure a = record { at = λ w h. h }

  pub Keeps-raise : {E A : Type 0} (x : E) → Keeps {A = A} P (raise x)
  Keeps-raise x = record { at = λ w h. h }

  pub Keeps-lift : {E A : Type 0} (r : Result E A) → Keeps P (lift r)
  Keeps-lift r = record { at = λ w h. h }

  pub Keeps-bind :
      {E A B : Type 0} (m : Action e E A) (f : A → Action e E B)
      → Keeps P m
      → ((a : A) → Keeps P (f a))
      → Keeps P (m >>= f)
  Keeps-bind {E} {A} {B} m f km kf = record { at = λ w h. go (m w).0 (m w).1 (km.at w h) }
    where
      go : (r : Result E A) (w' : World e) → P w' → P (continue r f w').1
      go (ok a) w' h = (kf a).at w' h
      go (err x) w' h = h

  pub Keeps-or_fail :
      {E F A : Type 0} (m : Action e E A) (x : F) → Keeps P m → Keeps P (m or_fail x)
  Keeps-or_fail m x km = record { at = λ w h. km.at w h }

  pub Keeps-attempt : {E F A : Type 0} (m : Action e E A) → Keeps P m → Keeps P (attempt {F = F} m)
  Keeps-attempt m km = record { at = λ w h. km.at w h }

  pub Keeps-if :
      {E A : Type 0} (b : Bool) (m n : Action e E A)
      → Keeps P m
      → Keeps P n
      → Keeps P (if b then m else n)
  Keeps-if true m n km kn = km
  Keeps-if false m n km kn = kn

  pub Keeps-then_always :
      {E A : Type 0} (m : Action e E A) (after : Action e Error (Unit {0}))
      → Keeps P m
      → Keeps P after
      → Keeps P (m then_always after)
  Keeps-then_always m after km ka = record { at = λ w h. ka.at (m w).1 (km.at w h) }

  pub Keeps-time_now : {E : Type 0} → Keeps {E = E} P time_now
  Keeps-time_now = record { at = λ w h. h }

pub ruleset keeps_rules = (
  Keeps-pure, Keeps-raise, Keeps-lift, Keeps-bind, Keeps-or_fail, Keeps-attempt, Keeps-if,
  Keeps-then_always, Keeps-time_now,
)
