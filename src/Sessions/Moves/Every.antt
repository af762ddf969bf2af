-- ===== src/Sessions/Moves/Every.antt =====
-- What any call does to the rows.
use egyptian_arabic_annotati.Base.{ℕ, Option}
use egyptian_arabic_annotati.Sessions.State.{Database}
use egyptian_arabic_annotati.Sessions.Moves.{
  Moves, Step, logged_in, taken_over, signed_out, wrote, beat,
}
use egyptian_arabic_annotati.Sessions.Moves.Writes.{logout-Moves, touch-Moves, beat-Moves}
use egyptian_arabic_annotati.Sessions.Moves.Logins.{login-Moves, takeover-Moves}

pub Step-Moves :
    {fingerprint : ℕ → ℕ} {used : Option ℕ} {db after : Database}
    → Step fingerprint used db after
    → (k : ℕ) → Moves used (db.sessions k) (after.sessions k)
Step-Moves (logged_in {db} username requested fresh now cs cg policy e) =
    login-Moves _ username requested fresh now cs cg policy db e
Step-Moves (taken_over {db} username requested og of fresh now policy e) =
    takeover-Moves _ username requested og of fresh now policy db e
Step-Moves (signed_out {db} username session_id generation) =
    logout-Moves username session_id generation db
Step-Moves (wrote {db} fence policy assignment now) = touch-Moves fence policy assignment now db
Step-Moves (beat {db} fence activity policy now e) = beat-Moves fence activity policy now db e
