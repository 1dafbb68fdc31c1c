-- ===== src/Gateway/Http.antt =====
-- Requests as the middleware sees them. A header is a list of lines under canonical names, as
-- `net/http` parses it; a body is what can be read of it.
use quantsim.Prelude.{ℕ, Bool, Option, List, [], ◌∷◌, String, if◌then◌else◌}
use quantsim.Prelude.Keys.{str_eq}
use quantsim.Prelude.Text.{Text}

-- The bytes that arrive, and whether the connection breaks after them instead of ending.
pub record Stream : Type 0 where
  pub bytes : List ℕ
  pub breaks : Bool

-- The address of the peer with its port, the declared length (`none` is -1), and the user that the
-- gate put on the context. A body of `none` is nil; `http.NoBody` is the stream of no bytes.
pub record Request : Type 0 where
  pub remote_addr : Text
  pub header : List (String × Text)
  pub content_length : Option ℕ
  pub body : Option Stream
  pub user : Option Text

-- `Header.Get`: the first line of that name, or ""
unfoldable pub get : String → List (String × Text) → Text
get name [] = []
get name ((key, value) ∷ lines) =
    let rest = get name lines in if str_eq key name then value else rest

-- `Header.Del`: every line of that name
unfoldable pub del : String → List (String × Text) → List (String × Text)
del name [] = []
del name ((key, value) ∷ lines) =
    let rest = del name lines in if str_eq key name then rest else (key, value) ∷ rest

-- `Header.Set`: one line in the place of all
unfoldable pub set : String → Text → List (String × Text) → List (String × Text)
unfolding del
set name value lines = (name, value) ∷ del name lines

-- `Header.Values`
unfoldable pub values : String → List (String × Text) → List Text
values name [] = []
values name ((key, value) ∷ lines) =
    let rest = values name lines in if str_eq key name then value ∷ rest else rest

-- What a middleware does with a request: an answer of its own, or the request that it passes on.
pub data Outcome : Type 0 where
  answered : ℕ → Outcome
  passed : Request → Outcome
