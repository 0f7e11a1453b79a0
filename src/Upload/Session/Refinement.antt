-- ===== src/Upload/Session/Refinement.antt =====
-- The handler of upload sessions implements the transfer of a sequence of bytes.
use den_kit_stash.Base.{ℕ, Text, List, [], ◌∷◌, codes_eq, number_eq}
use den_kit_stash.World.{Env, World, Result, ok, err}
use den_kit_stash.World.Outcomes.{Post}
use den_kit_stash.Http.{Response}
use den_kit_stash.Upload.Session.Transfer.{Transfer, Represents, Reached}
use den_kit_stash.Upload.Session.Transfer.{Steps, no_steps, then_steps}
use den_kit_stash.Upload.Session.{put_upload_session}
use den_kit_stash.Http.{settle, respond}
use den_kit_stash.Upload.Session.Reached.{put_upload_session-Reached}

settled :
    {e : Env} {id path : Text} {body : List ℕ} {t : Transfer}
    (r : Result (Response (Unit {0})) (Response (Unit {0}))) (w : World e)
    → Post (λ x w. Reached id path body t x w) (λ x w. Reached id path body t x w) r w
    → Reached id path body t (settle r) w
settled (ok x) w h = h
settled (err x) w h = h

-- Whatever the request and the outcome of its outside calls, from a world that represents a transfer
-- `PutUploadSession` leaves a world that represents the transfer after one step: it is as it was, or
-- bytes from the front of the request's body are added behind those received, or it is finished,
-- perhaps after such bytes are added, and the object store is given the received bytes under
-- the session's path. The answer tells of that transfer: status 200 that it is
-- finished, and a range that it goes on behind the bytes received.
pub put_upload_session_refines :
    {e : Env} (limit : ℕ) (id path range : Text) (body : List ℕ) (t : Transfer) (w : World e)
    → Represents id path t w
    → let r = respond (put_upload_session limit id range body) w in Reached id path body t r.0 r.1
put_upload_session_refines limit id path range body t w h =
    settled (put_upload_session limit id range body w).0
      (put_upload_session limit id range body w).1
      ((put_upload_session-Reached limit range body id path t).at w h)

-- The requests of a client, each a range and a body, one after the other.
abbrev pub put_all : {e : Env} → ℕ → Text → List (Text × List ℕ) → World e → World e
put_all limit id [] w = w
put_all limit id ((range, body) ∷ rest) w =
    put_all limit id rest (respond (put_upload_session limit id range body) w).1

abbrev pub bodies : List (Text × List ℕ) → List (List ℕ)
bodies [] = []
bodies ((range, body) ∷ rest) = body ∷ bodies rest

-- From a world that represents a transfer, any sequence of requests on the session leaves a world that
-- represents a transfer which steps on the requests' bodies, in their order, lead to.
pub put_all_refines :
    {e : Env} (limit : ℕ) (id path : Text) (requests : List (Text × List ℕ)) (t : Transfer)
    (w : World e)
    → Represents id path t w
    → (t' : Transfer) × Steps (bodies requests) t t'
      × Represents id path t' (put_all limit id requests w)
put_all_refines limit id path [] t w h = (t, no_steps t, h)
put_all_refines limit id path ((range, body) ∷ rest) t w h =
    let (t', step, h', _) = put_upload_session_refines limit id path range body t w h in
    let (t'', steps, h'') =
      put_all_refines limit id path rest t' (respond (put_upload_session limit id range body) w).1
        h' in
    (t'', then_steps body (bodies rest) t t' t'' step steps, h'')
