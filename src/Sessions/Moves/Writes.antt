-- ===== src/Sessions/Moves/Writes.antt =====
-- What a resumed login, a logout, a write and a heartbeat do to the rows.
use egyptian_arabic_annotati.Base.{
  ℕ, ◌≡◌, refl, sym, subst, inl, inr, Bool, true, false, Bool-cases, Option, Option-cases, none,
  some, if◌then◌else◌, arith,
}
use egyptian_arabic_annotati.Sessions.State.{
  Annotator, Session, Database, SessionFence, SessionPolicy, find_user, set_session, set_activity,
  record_session_event,
}
use egyptian_arabic_annotati.Sessions.Fence.{is_session, touched, touch_real_activity}
use egyptian_arabic_annotati.Sessions.Login.{resume, names_session, logout}
use egyptian_arabic_annotati.Sessions.Heartbeat.{
  Heartbeat, beaten, beat_of, update_presence, touch_assignment, long_idle,
}
use egyptian_arabic_annotati.Sessions.Moves.{Moves, kept, dropped, refreshed, set_session-Moves}

pub resume-Moves :
    {used : Option ℕ} (user : Annotator) (current : Session) (now : ℕ) (db : Database)
    → db.sessions user.id ≡ some current
    → (k : ℕ) → Moves used (db.sessions k) ((resume user current now db).1.sessions k)
unfolding resume record_session_event
resume-Moves user current now db there =
    set_session-Moves user.id (some (record current { last_seen_at = now })) db
      (rw there (refreshed refl refl refl refl (inl refl)))

pub logout-Moves :
    (username session_id : ℕ) (generation : Option ℕ) (db : Database) (k : ℕ)
    → Moves none (db.sessions k) ((logout username session_id generation db).sessions k)
unfolding logout record_session_event
logout-Moves username session_id generation db k =
    elim (Option-cases (find_user username db.annotators)) [
      | inl unknown ↦ rw (unknown, logout) kept
      | inr (user, found) ↦ elim (Option-cases (db.sessions user.id)) [
        | inl gone ↦ rw (found, gone, logout) kept
        | inr (row, there) ↦ elim (Bool-cases (names_session session_id generation row)) [
          | inl named ↦
              rw (found, there, named, logout) (set_session-Moves user.id none db dropped k)
          | inr other ↦ rw (found, there, other, logout) kept
        ]
      ]
    ]

pub set_activity-sessions :
    (user_id now : ℕ) (db : Database) → (set_activity user_id now db).sessions ≡ db.sessions
unfolding set_activity
set_activity-sessions user_id now db = elim (Option-cases (db.activity user_id)) [
  | inl gone ↦ rw (gone, set_activity) refl
  | inr (last, there) ↦ rw (there, set_activity) refl
]

pub touch_assignment-sessions :
    (policy : SessionPolicy) (user_id now : ℕ) (db : Database)
    → (touch_assignment policy user_id now db).sessions ≡ db.sessions
unfolding touch_assignment
touch_assignment-sessions policy user_id now db = elim (Option-cases (db.activity user_id)) [
  | inl gone ↦ rw (gone, touch_assignment) refl
  | inr (last, there) ↦ elim (Bool-cases (long_idle policy now last)) [
    | inl idle ↦ rw (there, idle, touch_assignment) refl
    | inr recent ↦ rw (there, recent, touch_assignment) refl
  ]
]

abbrev pub refreshed_row : SessionFence → SessionPolicy → ℕ → Database → Database
refreshed_row fence policy now db = elim (db.sessions fence.user_id) [
  | none ↦ db
  | some row ↦
      if is_session fence row
      then set_session fence.user_id (some (touched policy now row)) db
      else db
]

refreshed_row-Moves :
    (fence : SessionFence) (policy : SessionPolicy) (now : ℕ) (db : Database) (k : ℕ)
    → Moves none (db.sessions k) ((refreshed_row fence policy now db).sessions k)
unfolding touched
refreshed_row-Moves fence policy now db k = elim (Option-cases (db.sessions fence.user_id)) [
  | inl gone ↦ rw (gone, refreshed_row) kept
  | inr (row, there) ↦ elim (Bool-cases (is_session fence row)) [
    | inl named ↦
        rw (there, named, refreshed_row)
          (set_session-Moves fence.user_id (some (touched policy now row)) db
            (rw there (refreshed refl refl refl refl (inr (omega arith)))) k)
    | inr other ↦ rw (there, other, refreshed_row) kept
  ]
]

pub touch-Moves :
    (fence : SessionFence) (policy : SessionPolicy) (assignment : Bool) (now : ℕ) (db : Database)
    (k : ℕ)
    → Moves none (db.sessions k) ((touch_real_activity fence policy assignment now db).sessions k)
unfolding touch_real_activity
touch-Moves fence policy false now db k = refreshed_row-Moves fence policy now db k
touch-Moves fence policy true now db k =
    subst (λ rows. Moves none (db.sessions k) (rows k))
      (sym (set_activity-sessions fence.user_id now (refreshed_row fence policy now db)))
      (refreshed_row-Moves fence policy now db k)

pub update_presence-stored :
    (fence : SessionFence) (activity : Bool) (policy : SessionPolicy) (now : ℕ) (db : Database)
    {reply : Heartbeat} {after : Database}
    → update_presence fence activity policy now db ≡ some (reply, after)
    → (row : Session) × (db.sessions fence.user_id ≡ some row)
      × ((beat_of activity policy fence.user_id now row db).1 ≡ after)
unfolding update_presence
update_presence-stored fence activity policy now db e =
    elim (Option-cases (db.sessions fence.user_id)) [
      | inl gone ↦ ground (arith, gone)
      | inr (row, there) ↦ (row, there, ground (arith, there))
    ]

beaten-Moves :
    {used : Option ℕ} (activity : Bool) (policy : SessionPolicy) (now : ℕ) (row : Session)
    → Moves used (some row) (some (beaten activity policy now row))
unfolding beaten
beaten-Moves false policy now row = refreshed refl refl refl refl (inl refl)
beaten-Moves true policy now row = elim (Bool-cases (long_idle policy now row.last_activity_at)) [
  | inl idle ↦ rw idle (refreshed refl refl refl refl (inr (omega arith)))
  | inr recent ↦ rw recent (refreshed refl refl refl refl (inl refl))
]

beat_of-Moves :
    {used : Option ℕ} (activity : Bool) (policy : SessionPolicy) (user_id now : ℕ) (row : Session)
    (db : Database)
    → db.sessions user_id ≡ some row
    → (k : ℕ)
    → Moves used (db.sessions k) ((beat_of activity policy user_id now row db).1.sessions k)
unfolding beat_of
beat_of-Moves false policy user_id now row db there k =
    set_session-Moves user_id _ db (rw there (beaten-Moves false policy now row)) k
beat_of-Moves {used} true policy user_id now row db there k =
    let updated = set_session user_id (some (beaten true policy now row)) db in
    subst (λ rows. Moves used (db.sessions k) (rows k))
      (sym (touch_assignment-sessions policy user_id now updated))
      (set_session-Moves user_id _ db (rw there (beaten-Moves true policy now row)) k)

pub beat-Moves :
    (fence : SessionFence) (activity : Bool) (policy : SessionPolicy) (now : ℕ) (db : Database)
    {reply : Heartbeat} {after : Database}
    → update_presence fence activity policy now db ≡ some (reply, after)
    → (k : ℕ) → Moves none (db.sessions k) (after.sessions k)
beat-Moves fence activity policy now db e k =
    let (row, there, stored) = update_presence-stored fence activity policy now db e in
    subst (λ after. Moves none (db.sessions k) (after.sessions k)) stored
      (beat_of-Moves activity policy fence.user_id now row db there k)
