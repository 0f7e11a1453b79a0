-- ===== src/World/Outcomes.antt =====
-- What holds behind an action on every outcome, of its answer or its error.
use den_kit_stash.Base.{ℕ, ◌≡◌, refl, Bool, true, false}
use den_kit_stash.World.Tables.{Db}
use den_kit_stash.World.{
  Env, World, Action, Error, unavailable, constraint, Outcome, answered, refused, unanswered,
  Result, ok, err, ◌>>=◌, ◌or_fail◌, answer, checked, call, exec, continue,
}
use den_kit_stash.World.Laws.{ticked}

module _ {e : Env} {E A : Type 0} where
  abbrev pub Post : (A → World e → Type 0) → (E → World e → Type 0) → Result E A → World e → Type 0
  Post Q R (ok a) w = Q a w
  Post Q R (err x) w = R x w

  -- From a world with `P`, a success leaves `Q` and a failure leaves `R`.
  pub record Leaves (P : World e → Type 0) (m : Action e E A) (Q : A → World e → Type 0)
      (R : E → World e → Type 0) : Type 0 where
    pub at : (w : World e) → P w → Post Q R (m w).0 (m w).1

module _ {e : Env} {E A : Type 0} {P : World e → Type 0} {R : E → World e → Type 0} where
  pub Leaves-bind :
      {B : Type 0} (Q : A → World e → Type 0) (S : B → World e → Type 0) (m : Action e E A)
      (f : A → Action e E B)
      → Leaves P m Q R
      → ((a : A) → Leaves (Q a) (f a) S R)
      → Leaves P (m >>= f) S R
  Leaves-bind {B} Q S m f km kf = record { at = λ w p. go (m w).0 (m w).1 (km.at w p) }
    where
      go :
          (r : Result E A) (w : World e)
          → Post Q R r w
          → Post S R (continue r f w).0 (continue r f w).1
      go (ok a) w h = (kf a).at w h
      go (err x) w h = h

  pub Leaves-or_fail :
      {F : Type 0} (Q : A → World e → Type 0) (m : Action e F A) (x : E)
      → Leaves P m Q (λ _. R x)
      → Leaves P (m or_fail x) Q R
  Leaves-or_fail {F} Q m x k = record { at = λ w p. go (m w).0 (m w).1 (k.at w p) }
    where
      go :
          (r : Result F A) (w : World e)
          → Post Q (λ _. R x) r w
          → Post Q R (((λ _. (r, w)) or_fail x) w).0 w
      go (ok a) w h = h
      go (err y) w h = h

-- A weaker claim.
module _ {e : Env} {E A : Type 0} {P P' : World e → Type 0} {Q Q' : A → World e → Type 0}
    {R R' : E → World e → Type 0} where
  pub Leaves-weaken :
      (m : Action e E A)
      → ((w : World e) → P' w → P w)
      → ((a : A) (w : World e) → Q a w → Q' a w)
      → ((x : E) (w : World e) → R x w → R' x w)
      → Leaves P m Q R
      → Leaves P' m Q' R'
  Leaves-weaken m from done failed k = record { at = λ w p. go (m w).0 (m w).1 (k.at w (from w p)) }
    where
      go : (r : Result E A) (w : World e) → Post Q R r w → Post Q' R' r w
      go (ok a) w h = done a w h
      go (err x) w h = failed x w h

-- The outside calls, for properties that do not count the calls.
module _ {e : Env} {A : Type 0} {P : World e → Type 0} {Q : A → World e → Type 0}
    {R : Error → World e → Type 0} (uncounted : (w : World e) → P w → P (ticked w)) where
  pub Leaves-call :
      (op : Action e Error A)
      → ((w : World e) → P w → Post Q R (op w).0 (op w).1)
      → ((w : World e) → P w → R unavailable w)
      → ((w : World e) → P w → R unavailable (op w).1)
      → Leaves P (call op) Q R
  unfolding call
  Leaves-call op done lost half = record {
    at = λ w p. go (e.outcome w.calls) (ticked w) (uncounted w p);
  }
    where
      go : (o : Outcome) (w : World e) → P w → Post Q R (answer o op w).0 (answer o op w).1
      go answered w p = done w p
      go refused w p = lost w p
      go unanswered w p = half w p

  pub Leaves-exec :
      (allowed : Db → Bool) (f : ℕ → Db → A × Db)
      → ((w : World e) (now : ℕ)
          → P w
          → allowed w.db ≡ true
          → Q (f now w.db).0 (record w { db = (f now w.db).1 }))
      → ((x : Error) (w : World e) → P w → R x w)
      → ((w : World e) (now : ℕ)
          → P w
          → allowed w.db ≡ true
          → R unavailable (record w { db = (f now w.db).1 }))
      → Leaves P (exec allowed f) Q R
  unfolding exec call
  Leaves-exec allowed f done lost half = record {
    at = λ w p. go (e.outcome w.calls) (ticked w) (uncounted w p);
  }
    where
      go :
          (o : Outcome) (w : World e)
          → P w
          → let op : Action e Error A = λ w.
            checked
              (allowed w.db)
              ((f (e.now w.calls) w.db).0, record w { db = (f (e.now w.calls) w.db).1 })
              w in
            Post Q R (answer o op w).0 (answer o op w).1
      go refused w p = lost unavailable w p
      go answered w p = on (allowed w.db) refl
        where
          on :
              (t : Bool)
              → allowed w.db ≡ t
              → let r =
                  checked t
                    ((f (e.now w.calls) w.db).0, record w { db = (f (e.now w.calls) w.db).1 })
                    w in
                Post Q R r.0 r.1
          on true h = done w (e.now w.calls) p h
          on false h = lost constraint w p
      go unanswered w p = on (allowed w.db) refl
        where
          on :
              (t : Bool)
              → allowed w.db ≡ t
              → R unavailable
                  (checked t
                    ((f (e.now w.calls) w.db).0, record w { db = (f (e.now w.calls) w.db).1 })
                    w).1
          on true h = half w (e.now w.calls) p h
          on false h = lost unavailable w p
