-- ===== src/Sessions/Moves/Logins.antt =====
-- What a login and a takeover do to the rows.
use egyptian_arabic_annotati.Base.{
  ℕ, ◌+◌, ◌≡◌, refl, subst, inl, inr, Bool, true, false, Bool-cases, not, ◌||◌, Option,
  Option-cases, none, some, leb, if◌then◌else◌, arith, Result, ok, Result-cases, raise_if, ◌>>◌,
}
use egyptian_arabic_annotati.Sessions.State.{
  Fault, Annotator, Session, Database, SessionPolicy, uuid, find_user, record_session_event,
  replaced_session, ensure_user, lock_active_annotator, validate_uuid, replace_active_session,
  EventType, login_event, stale_takeover_event, forced_takeover_event,
}
use egyptian_arabic_annotati.Sessions.Login.{
  SessionPayload, Mode, Reason, cookie_ok, start_session, login_over, login_or_resume,
  force_takeover, login_mode, stale_takeover_mode, forced_takeover_mode, missing_session,
  idle_expired, absolute_expired,
}
use egyptian_arabic_annotati.Sessions.Moves.{Moves, created, replaced, set_session-Moves}
use egyptian_arabic_annotati.Sessions.Moves.Writes.{resume-Moves}

start-Moves :
    (user : Annotator) (requested : ℕ) (policy : SessionPolicy) (recorded : Option ℕ)
    (event_type : EventType) (mode : Mode) (reason : Option Reason) (now : ℕ) (db : Database)
    → db.sessions user.id ≡ none
    → (k : ℕ)
    → Moves (some requested) (db.sessions k) (
        (start_session user requested policy
            (some 0)
            recorded
            event_type
            mode
            reason
            now
            db).1.sessions
          k)
unfolding start_session replace_active_session record_session_event replaced_session
start-Moves user requested policy recorded event_type mode reason now db gone =
    set_session-Moves user.id (some (replaced_session requested policy (some 0) now)) db
      (rw gone (created requested refl refl (omega arith)))

start_over-Moves :
    (user : Annotator) (requested : ℕ) (policy : SessionPolicy) (current : Session)
    (event_type : EventType) (mode : Mode) (reason : Option Reason) (now : ℕ) (db : Database)
    → db.sessions user.id ≡ some current
    → (k : ℕ)
    → Moves (some requested) (db.sessions k) (
        (start_session user requested policy
            (some current.generation)
            (some current.generation)
            event_type
            mode
            reason
            now
            db).1.sessions
          k)
unfolding start_session replace_active_session record_session_event replaced_session
start_over-Moves user requested policy current event_type mode reason now db there =
    set_session-Moves user.id
      (some (replaced_session requested policy (some current.generation) now)) db
      (rw there (replaced requested refl refl (omega arith) (omega arith)))

after_of :
    {a b : SessionPayload × Database}
    → ◌≡◌ {A = Result Fault (SessionPayload × Database)} (ok a) (ok b)
    → a.1 ≡ b.1
after_of e = cc

ensure_user-sessions :
    (username fresh : ℕ) (db : Database) → (ensure_user username fresh db).1.sessions ≡ db.sessions
unfolding ensure_user
ensure_user-sessions username fresh db = elim (Option-cases (find_user username db.annotators)) [
  | inl unknown ↦ rw (unknown, ensure_user) refl
  | inr (user, found) ↦ rw (found, ensure_user) refl
]

login_over-Moves :
    (fingerprint : ℕ → ℕ) (user : Annotator) (requested : ℕ)
    (cookie_session_id cookie_generation : Option ℕ) (policy : SessionPolicy) (current : Session)
    (now : ℕ) (db : Database) {p : SessionPayload} {after : Database}
    → db.sessions user.id ≡ some current
    → login_over fingerprint user requested cookie_session_id cookie_generation policy current now
        db
      ≡ ok (p, after)
    → (k : ℕ) → Moves (some requested) (db.sessions k) (after.sessions k)
unfolding login_over
login_over-Moves fingerprint user requested cs cg policy current now db there e k =
    elim (Bool-cases (cookie_ok cs cg now current)) [
      | inl same ↦
          subst (λ d. Moves (some requested) (db.sessions k) (d.sessions k))
            (after_of (rw same at e)) (resume-Moves user current now db there k)
      | inr other ↦
          elim (Bool-cases (leb current.expires_at now || leb current.absolute_expires_at now)) [
            | inl expired ↦
                subst (λ d. Moves (some requested) (db.sessions k) (d.sessions k))
                  (after_of (rw (other, expired) at e))
                  (start_over-Moves user requested policy current login_event login_mode
                    (some (
                      if leb current.absolute_expires_at now
                      then absolute_expired
                      else idle_expired))
                    now db there k)
            | inr lasts ↦
                elim (Bool-cases (leb (current.last_seen_at + policy.presence_lease_seconds) now)) [
                  | inl gone ↦
                      subst (λ d. Moves (some requested) (db.sessions k) (d.sessions k))
                        (after_of (rw (other, lasts, gone) at e))
                        (start_over-Moves user requested policy current stale_takeover_event
                          stale_takeover_mode none now db there k)
                  | inr live ↦ absurd (cc (rw (other, lasts, live) at e))
                ]
          ]
    ]

login_locked-Moves :
    (fingerprint : ℕ → ℕ) (user : Annotator) (requested now : ℕ)
    (cookie_session_id cookie_generation : Option ℕ) (policy : SessionPolicy) (db : Database)
    {p : SessionPayload} {after : Database}
    → ◌≡◌ {A = Result Fault (SessionPayload × Database)}
        (elim (db.sessions user.id) [
          | none ↦ ok (
              start_session user requested policy
                (some 0)
                none
                login_event
                login_mode
                (some missing_session)
                now
                db)
          | some current ↦
              login_over fingerprint user requested cookie_session_id cookie_generation policy
                current now db
        ])
        (ok (p, after))
    → (k : ℕ) → Moves (some requested) (db.sessions k) (after.sessions k)
login_locked-Moves fingerprint user requested now cs cg policy db e k =
    elim (Option-cases (db.sessions user.id)) [
      | inl gone ↦
          subst (λ d. Moves (some requested) (db.sessions k) (d.sessions k))
            (after_of (rw gone at e))
            (start-Moves user requested policy none login_event login_mode (some missing_session)
              now db gone k)
      | inr (current, there) ↦
          login_over-Moves fingerprint user requested cs cg policy current now db there
            (rw there at e) k
    ]

pub login-Moves :
    (fingerprint : ℕ → ℕ) (username requested fresh now : ℕ)
    (cookie_session_id cookie_generation : Option ℕ) (policy : SessionPolicy) (db : Database)
    {p : SessionPayload} {after : Database}
    → login_or_resume fingerprint username
        (uuid requested)
        cookie_session_id
        cookie_generation
        policy
        fresh
        now
        db
      ≡ ok (p, after)
    → (k : ℕ) → Moves (some requested) (db.sessions k) (after.sessions k)
unfolding login_or_resume validate_uuid
login-Moves fingerprint username requested fresh now cs cg policy db {after} e k =
    let with_user = (ensure_user username fresh db).1 in
    let same_rows = ensure_user-sessions username fresh db in
    elim (Result-cases (lock_active_annotator (ensure_user username fresh db).0.id with_user)) [
      | inr (fault, refused) ↦ absurd (cc (rw refused at e))
      | inl (user, locked) ↦
          subst (λ rows. Moves (some requested) (rows k) (after.sessions k)) same_rows
            (login_locked-Moves fingerprint user requested now cs cg policy with_user
              (rw locked at e) k)
    ]

passed :
    (test : Bool) (fault : Fault) {next : Result Fault (SessionPayload × Database)}
    {value : SessionPayload × Database}
    → (raise_if (not test) fault >> next) ≡ ok value
    → next ≡ ok value
passed true fault e = e
passed false fault e = cc

pub takeover-Moves :
    (fingerprint : ℕ → ℕ)
    (username requested observed_generation observed_fingerprint fresh now : ℕ)
    (policy : SessionPolicy) (db : Database) {p : SessionPayload} {after : Database}
    → force_takeover fingerprint username
        (uuid requested)
        observed_generation
        observed_fingerprint
        policy
        fresh
        now
        db
      ≡ ok (p, after)
    → (k : ℕ) → Moves (some requested) (db.sessions k) (after.sessions k)
unfolding force_takeover validate_uuid
takeover-Moves fingerprint username requested og of fresh now policy db {after} e k =
    let with_user = (ensure_user username fresh db).1 in
    let same_rows = ensure_user-sessions username fresh db in
    elim (Result-cases (lock_active_annotator (ensure_user username fresh db).0.id with_user)) [
      | inr (fault, refused) ↦ absurd (cc (rw refused at e))
      | inl (user, locked) ↦
          subst (λ rows. Moves (some requested) (rows k) (after.sessions k)) same_rows
            (elim (Option-cases (with_user.sessions user.id)) [
              | inl gone ↦ absurd (cc (rw (locked, gone) at e))
              | inr (current, there) ↦
                  subst (λ d. Moves (some requested) (with_user.sessions k) (d.sessions k))
                    (after_of (passed _ _ (rw (locked, there) at e)))
                    (start_over-Moves user requested policy current forced_takeover_event
                      forced_takeover_mode none now with_user there k)
            ])
    ]
