-- ===== src/Http.antt =====
-- What a handler answers: handlers/respond.go, with the bodies of handlers/responses.go as the type
-- `B` of each handler. A handler raises the answers that it returns early.
use den_kit_stash.Base.{ℕ, String, Text, Option}
use den_kit_stash.World.{Env, World, Action, Result, ok, err}

pub data Response (B : Type 0) : Type 0 where
  -- writeJSON with status 200
  json : B → Response B
  -- writeError
  problem : ℕ → String → Response B
  -- WriteHeader alone
  status : ℕ → Response B
  -- WriteHeader(201) with a Location
  created : Text → Response B
  -- WriteHeader(308), with a Range that ends at this byte
  resume : Option ℕ → Response B
  -- http.Redirect with 307
  redirect : Text → Response B
  -- http.Redirect with 302
  found : String → Response B

-- writeInternalError
abbrev pub internal_error : {B : Type 0} → Response B
internal_error = problem 500 "internal error"

abbrev pub Handler : Env → Type 0 → Type 0 → Type 0
Handler e B A = Action e (Response B) A

abbrev pub settle : {B : Type 0} → Result (Response B) (Response B) → Response B
settle (ok r) = r
settle (err r) = r

-- The answer that is sent, and the world after it.
abbrev pub respond :
    {e : Env} {B : Type 0} → Handler e B (Response B) → World e → Response B × World e
respond m w = let r = m w in (settle r.0, r.1)
