-- ===== src/World/Ensures.antt =====
-- What holds of the answer and the world behind an action that succeeds.
use den_kit_stash.Base.{◌≡◌, sym, subst}
use den_kit_stash.World.{Env, World, Action, ok, ◌>>=◌, ◌or_fail◌}
use den_kit_stash.World.Laws.{bind-ok, bind-run, or_fail-ok}

-- Where the action succeeds from a world with `P`, its answer and the world that it leaves have `Q`.
pub record Ensures {e : Env} {E A : Type 0} (P : World e → Type 0) (m : Action e E A)
    (Q : A → World e → Type 0) : Type 0 where
  pub at : (w : World e) (a : A) → P w → (m w).0 ≡ ok a → Q a (m w).1

module _ {e : Env} {E A : Type 0} {P : World e → Type 0} where
  pub Ensures-bind :
      {B : Type 0} (Q : A → World e → Type 0) (R : B → World e → Type 0) (m : Action e E A)
      (f : A → Action e E B)
      → Ensures P m Q
      → ((a : A) → Ensures (Q a) (f a) R)
      → Ensures P (m >>= f) R
  Ensures-bind Q R m f km kf = record {
    at = λ w b p h.
        let (a, got, h1) = bind-ok m f w b h in
        subst (λ r. R b r.1) (sym (bind-run m f w a got))
          ((kf a).at (m w).1 b (km.at w a p got) h1);
  }

  pub Ensures-or_fail :
      {F : Type 0} (Q : A → World e → Type 0) (m : Action e E A) (x : F)
      → Ensures P m Q
      → Ensures P (m or_fail x) Q
  Ensures-or_fail Q m x k = record { at = λ w a p h. k.at w a p (or_fail-ok m x w a h) }
