-- ===== src/Sessions/Branches.antt =====
-- What login, takeover, logout and the heartbeat do on each of their branches.
use egyptian_arabic_annotati.Base.{
  ℕ, ◌+◌, ◌≡◌, ◌≢◌, ◌<◌, ◌≤◌, refl, sym, ap, ◌∙◌, ◌⊎◌, inl, inr, true, false, Bool-cases, ◌&&◌,
  ◌||◌, Option, none, some, leb, ◌==◌, if◌then◌else◌, arith, Result, ok, err,
}
use egyptian_arabic_annotati.Sessions.State.{
  session_replaced, Fault, fence_error, session_changed, active_session_conflict, ActiveSession,
  Annotator, Session, Database, SessionPolicy, EventType, login_event, stale_takeover_event,
  forced_takeover_event, uuid, commit, find_user, find_id, record_session_event, replaced_session,
  ensure_user, lock_active_annotator, validate_uuid, replace_active_session,
}
use egyptian_arabic_annotati.Sessions.Fence.{require_session_fence}
use egyptian_arabic_annotati.Sessions.Rows.{
  fence_of, set_session-same, set_session-other, fence-lives, fence-replaced,
}
use egyptian_arabic_annotati.Sessions.Login.{
  SessionPayload, cookie_ok, start_session, resume, login_over, login_or_resume, force_takeover,
  login_mode, Mode, Reason, idle_expired, absolute_expired, stale_takeover_mode,
  forced_takeover_mode,
}

pub some_inj : {a b : ℕ} → ◌≡◌ {A = Option ℕ} (some a) (some b) → a ≡ b
some_inj e = cc

abbrev reason_of : Session → ℕ → Option Reason
reason_of current now =
    some (if leb current.absolute_expires_at now then absolute_expired else idle_expired)

-- A known, active annotator with a session.
module _ (fingerprint : ℕ → ℕ) (username requested fresh now : ℕ) (policy : SessionPolicy)
    (db : Database) {user : Annotator} {current : Session}
    (found : find_user username db.annotators ≡ some user)
    (known : find_id user.id db.annotators ≡ some user) (active : user.is_active ≡ true)
    (there : db.sessions user.id ≡ some current) where
  -- The session as a conflict shows it.
  abbrev shown : Session → ActiveSession
  shown row = record {
    username = user.username;
    observed_generation = row.generation;
    last_seen_at = row.last_seen_at;
    login_time = row.login_time;
    session_fingerprint = fingerprint row.session_id;
  }

  ensured : ensure_user username fresh db ≡ (user, db)
  unfolding ensure_user
  ensured = ground (arith, found)

  locked : lock_active_annotator user.id db ≡ ok user
  unfolding lock_active_annotator
  locked = ground (arith, known)

  login-over :
      (cookie_session_id cookie_generation : Option ℕ)
      → login_or_resume fingerprint username
          (uuid requested)
          cookie_session_id
          cookie_generation
          policy
          fresh
          now
          db
        ≡ login_over fingerprint user requested cookie_session_id cookie_generation policy current
            now db
  unfolding login_or_resume validate_uuid
  login-over cookie_session_id cookie_generation = rw (ensured, locked, there, ensured) refl

  -- The new session in place of `current`.
  abbrev next : Session
  next = replaced_session requested policy (some current.generation) now

  -- A fence of the old session is refused as replaced, at any time; the new one passes until it
  -- expires; the sessions of the other users are as before.
  abbrev pub Replaced : Database → Type 0
  Replaced after =
      ((later : ℕ)
        → require_session_fence (fence_of user current) later after
          ≡ err (fence_error session_replaced))
      × ((later : ℕ)
          → later < now + policy.idle_seconds
          → later < now + policy.absolute_seconds
          → require_session_fence (fence_of user next) later after ≡ ok tt)
      × ((k : ℕ) → k ≢ user.id → after.sessions k ≡ db.sessions k)

  Replaced-intro :
      (after : Database)
      → after.sessions user.id ≡ some next
      → ((k : ℕ) → k ≢ user.id → after.sessions k ≡ db.sessions k)
      → Replaced after
  unfolding replaced_session
  Replaced-intro after e others = (
    λ later. fence-replaced (fence_of user current) later after e (λ same. omega arith),
    λ later x a.
        fence-lives (fence_of user next) later after e refl refl (omega arith) (omega arith),
    others,
  )

  start_session-Replaced :
      (event_type : EventType) (mode : Mode) (reason : Option Reason)
      → Replaced
          (start_session user requested policy
            (some current.generation)
            (some current.generation)
            event_type
            mode
            reason
            now
            db).1
  unfolding start_session replace_active_session record_session_event
  start_session-Replaced event_type mode reason =
      Replaced-intro _ (set_session-same user.id (some next) db)
        (λ k differs. set_session-other user.id k (some next) db differs)

  cookie-lives :
      (cookie_session_id cookie_generation : Option ℕ)
      → cookie_ok cookie_session_id cookie_generation now current ≡ true
      → (now < current.expires_at) × (now < current.absolute_expires_at)
  unfolding cookie_ok
  cookie-lives none generation h = ground arith
  cookie-lives (some session_id) none h = ground arith
  cookie-lives (some session_id) (some generation) h = ground arith

  -- The request's cookie is not that of the session: it has no session id or another one, or it has
  -- another generation.
  abbrev pub IsOther : (cookie_session_id cookie_generation : Option ℕ) → Type 0
  IsOther cookie_session_id cookie_generation =
      (cookie_session_id ≢ some current.session_id)
      ⊎ ((generation : ℕ) × (cookie_generation ≡ some generation)
          × (generation ≢ current.generation))

  other-refused :
      (cookie_session_id cookie_generation : Option ℕ)
      → IsOther cookie_session_id cookie_generation
      → cookie_ok cookie_session_id cookie_generation now current ≡ false
  unfolding cookie_ok
  other-refused none generation other = refl
  other-refused (some session_id) none (inl differs) =
      elim (Bool-cases (current.session_id == session_id)) [
        | inl same ↦ absurd (differs (ap some (ground (arith, same))))
        | inr differ ↦ rw differ refl
      ]
  other-refused (some session_id) none (inr (g, missing, differs)) = absurd (cc missing)
  other-refused (some session_id) (some generation) (inl differs) =
      elim (Bool-cases (current.session_id == session_id)) [
        | inl same ↦ absurd (differs (ap some (ground (arith, same))))
        | inr differ ↦ rw differ refl
      ]
  other-refused (some session_id) (some generation) (inr (g, named, differs)) =
      elim (Bool-cases (current.generation == generation)) [
        | inl same ↦ absurd (differs (some_inj (sym named) ∙ ground (arith, same)))
        | inr differ ↦ ground (arith, differ)
      ]

  expired-refused :
      (cookie_session_id cookie_generation : Option ℕ)
      → (current.expires_at ≤ now) ⊎ (current.absolute_expires_at ≤ now)
      → cookie_ok cookie_session_id cookie_generation now current ≡ false
  unfolding cookie_ok
  expired-refused none generation past = refl
  expired-refused (some session_id) none past = ground arith
  expired-refused (some session_id) (some generation) past = ground arith

  gone_by :
      {cookie_session_id cookie_generation : Option ℕ}
      → ((current.expires_at ≤ now) ⊎ (current.absolute_expires_at ≤ now))
        ⊎ (IsOther cookie_session_id cookie_generation
            × (current.last_seen_at + policy.presence_lease_seconds ≤ now))
      → (leb current.expires_at now || leb current.absolute_expires_at now)
          || leb (current.last_seen_at + policy.presence_lease_seconds) now
        ≡ true
  gone_by (inl (inl ended)) = ground (arith, ended)
  gone_by (inl (inr ended)) = ground (arith, ended)
  gone_by (inr (differs, unseen)) = ground (arith, unseen)

  -- Another device is never signed out silently: while a session has not expired and was seen within
  -- the presence lease, a login without its cookie (none, another session id, or another generation)
  -- fails with a conflict that shows the session, nothing is written, and the session's own fence
  -- still passes.
  pub login_live-conflict :
      (cookie_session_id cookie_generation : Option ℕ)
      → IsOther cookie_session_id cookie_generation
      → now < current.expires_at
      → now < current.absolute_expires_at
      → now < current.last_seen_at + policy.presence_lease_seconds
      → (commit db (
            login_or_resume fingerprint username
              (uuid requested)
              cookie_session_id
              cookie_generation
              policy
              fresh
              now
              db)
          ≡ (err (active_session_conflict (shown current)), db))
        × (require_session_fence (fence_of user current) now db ≡ ok tt)
  unfolding commit login_over
  login_live-conflict cookie_session_id cookie_generation other x a seen =
      let unnamed = other-refused cookie_session_id cookie_generation other in
      let refused : login_over fingerprint user requested cookie_session_id cookie_generation policy
            current now db
          ≡ err (active_session_conflict (shown current)) =
        ground (arith, unnamed) in
      (
        rw (login-over cookie_session_id cookie_generation ∙ refused) refl,
        fence-lives (fence_of user current) now db there refl refl x a,
      )

  -- A login with the cookie of a session that has not expired resumes it: the reply carries the same
  -- id, generation and deadlines, the row changes in its time of last contact only, and the fence
  -- still passes.
  pub login_cookie-resumes :
      (cookie_session_id cookie_generation : Option ℕ)
      → cookie_ok cookie_session_id cookie_generation now current ≡ true
      → (p : SessionPayload) × (after : Database) × (login_or_resume fingerprint username
            (uuid requested)
            cookie_session_id
            cookie_generation
            policy
            fresh
            now
            db
          ≡ ok (p, after))
        × (p.row ≡ record current { last_seen_at = now })
        × (after.sessions user.id ≡ some p.row)
        × (require_session_fence (fence_of user current) now after ≡ ok tt)
        × ((k : ℕ) → k ≢ user.id → after.sessions k ≡ db.sessions k)
  unfolding login_over resume cookie_ok
  login_cookie-resumes cookie_session_id cookie_generation same =
      let row = record current { last_seen_at = now } in
      let after = (resume user current now db).1 in
      let stored : after.sessions user.id ≡ some row = set_session-same user.id (some row) db in
      let alive = cookie-lives cookie_session_id cookie_generation same in
      (
        (resume user current now db).0,
        after,
        login-over cookie_session_id cookie_generation ∙ rw same refl,
        refl,
        stored,
        fence-lives (fence_of user current) now after stored refl refl alive.0 alive.1,
        λ k differs. set_session-other user.id k (some row) db differs,
      )

  -- A login over a session that has expired, with whatever cookie, or one without the session's cookie
  -- where the session was not seen within the presence lease, replaces it under the next generation:
  -- the old fence is refused as replaced from then on, and the new one passes until it expires.
  pub login_over-replaces :
      (cookie_session_id cookie_generation : Option ℕ)
      → ((current.expires_at ≤ now) ⊎ (current.absolute_expires_at ≤ now))
        ⊎ (IsOther cookie_session_id cookie_generation
            × (current.last_seen_at + policy.presence_lease_seconds ≤ now))
      → (p : SessionPayload) × (after : Database) × (login_or_resume fingerprint username
            (uuid requested)
            cookie_session_id
            cookie_generation
            policy
            fresh
            now
            db
          ≡ ok (p, after))
        × (p.row ≡ next)
        × Replaced after
  unfolding login_over start_session replace_active_session
  login_over-replaces cookie_session_id cookie_generation past =
      let other : cookie_ok cookie_session_id cookie_generation now current ≡ false = elim past [
        | inl ended ↦ expired-refused cookie_session_id cookie_generation ended
        | inr (differs, left) ↦ other-refused cookie_session_id cookie_generation differs
      ] in
      let gone : (leb current.expires_at now || leb current.absolute_expires_at now)
            || leb (current.last_seen_at + policy.presence_lease_seconds) now
          ≡ true =
        gone_by past in
      elim (Bool-cases (leb current.expires_at now || leb current.absolute_expires_at now)) [
        | inl expired ↦
            let run =
              start_session user requested policy (some current.generation)
                (some current.generation) login_event login_mode (reason_of current now) now db in
            (
              run.0,
              run.1,
              login-over cookie_session_id cookie_generation ∙ rw (other, expired) refl,
              refl,
              start_session-Replaced login_event login_mode (reason_of current now),
            )
        | inr lasts ↦
            let run =
              start_session user requested policy (some current.generation)
                (some current.generation) stale_takeover_event stale_takeover_mode none now db in
            (
              run.0,
              run.1,
              login-over cookie_session_id cookie_generation ∙ ground arith,
              refl,
              start_session-Replaced stale_takeover_event stale_takeover_mode none,
            )
      ]

  takeover-over :
      (observed_generation observed_fingerprint : ℕ)
      → force_takeover fingerprint username
          (uuid requested)
          observed_generation
          observed_fingerprint
          policy
          fresh
          now
          db
        ≡ (if current.generation == observed_generation
              && fingerprint current.session_id == observed_fingerprint
            then ok (
                start_session user requested policy
                  (some current.generation)
                  (some current.generation)
                  forced_takeover_event
                  forced_takeover_mode
                  none
                  now
                  db)
            else err session_changed)
  unfolding force_takeover validate_uuid
  takeover-over observed_generation observed_fingerprint =
      rw (ensured, locked, there) (ground arith)

  mismatch-refused :
      (observed_generation observed_fingerprint : ℕ) {A : Type 0} (a : Result Fault A)
      → (current.generation ≢ observed_generation)
        ⊎ (fingerprint current.session_id ≢ observed_fingerprint)
      → (if current.generation == observed_generation
            && fingerprint current.session_id == observed_fingerprint
          then a
          else err session_changed)
        ≡ err session_changed
  mismatch-refused observed_generation observed_fingerprint a (inl differs) = ground arith
  mismatch-refused observed_generation observed_fingerprint a (inr differs) = ground arith

  -- A takeover with what its token observed, a generation and a fingerprint, goes through exactly
  -- where both are those of the session that stands. Then the old fence is refused as replaced and
  -- the new one passes until it expires. Otherwise it fails and nothing is written.
  pub force_takeover-observed :
      (observed_generation observed_fingerprint : ℕ)
      → ((current.generation ≡ observed_generation)
          → (fingerprint current.session_id ≡ observed_fingerprint)
          → (p : SessionPayload) × (after : Database) × (force_takeover fingerprint username
                (uuid requested)
                observed_generation
                observed_fingerprint
                policy
                fresh
                now
                db
              ≡ ok (p, after))
            × (p.row ≡ next)
            × Replaced after)
        × ((current.generation ≢ observed_generation)
              ⊎ (fingerprint current.session_id ≢ observed_fingerprint)
            → commit db (
                force_takeover fingerprint username
                  (uuid requested)
                  observed_generation
                  observed_fingerprint
                  policy
                  fresh
                  now
                  db)
              ≡ (err session_changed, db))
  unfolding commit force_takeover start_session replace_active_session ensure_user
      lock_active_annotator
  force_takeover-observed observed_generation observed_fingerprint = (
    λ g f.
        let run =
          start_session user requested policy (some current.generation) (some current.generation)
            forced_takeover_event forced_takeover_mode none now db in
        (
          run.0,
          run.1,
          takeover-over observed_generation observed_fingerprint ∙ ground arith,
          refl,
          start_session-Replaced forced_takeover_event forced_takeover_mode none,
        ),
    λ differs.
        rw
          (takeover-over observed_generation observed_fingerprint
            ∙ mismatch-refused observed_generation observed_fingerprint _ differs)
          refl,
  )
