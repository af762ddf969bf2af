-- ===== src/Sessions/Rows.antt =====
-- A row after a write of it, and the fences of rows.
use egyptian_arabic_annotati.Base.{ℕ, ◌≡◌, ◌≢◌, ◌<◌, ◌∙◌, Option, some, arith, ok, err}
use egyptian_arabic_annotati.Sessions.State.{
  session_replaced, fence_error, Annotator, Session, Database, SessionFence, set_session,
}
use egyptian_arabic_annotati.Sessions.Fence.{require_session_fence}
use egyptian_arabic_annotati.Sessions.Guards.{require_row}

abbrev pub fence_of : Annotator → Session → SessionFence
fence_of user row = record {
  user_id = user.id;
  username = user.username;
  session_id = row.session_id;
  generation = row.generation;
}

pub set_session-same :
    (k : ℕ) (s : Option Session) (db : Database) → (set_session k s db).sessions k ≡ s
unfolding set_session
set_session-same k s db = ground arith

pub set_session-other :
    (k other : ℕ) (s : Option Session) (db : Database)
    → other ≢ k
    → (set_session k s db).sessions other ≡ db.sessions other
unfolding set_session
set_session-other k other s db differs = ground arith

pub fence-lives :
    (fence : SessionFence) (later : ℕ) (db : Database) {row : Session}
    → db.sessions fence.user_id ≡ some row
    → row.session_id ≡ fence.session_id
    → row.generation ≡ fence.generation
    → later < row.expires_at
    → later < row.absolute_expires_at
    → require_session_fence fence later db ≡ ok tt
fence-lives fence later db there i g x a = require_row fence later db there ∙ ground arith

pub fence-replaced :
    (fence : SessionFence) (later : ℕ) (db : Database) {row : Session}
    → db.sessions fence.user_id ≡ some row
    → row.generation ≢ fence.generation
    → require_session_fence fence later db ≡ err (fence_error session_replaced)
fence-replaced fence later db there g = require_row fence later db there ∙ ground arith
