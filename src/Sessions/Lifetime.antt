-- ===== src/Sessions/Lifetime.antt =====
-- Sessions over any sequence of committed calls of any users. Each new session has a new id, as
-- `uuid4` promises, so a run is one in which no call brings the id in question again.
use egyptian_arabic_annotati.Base.{
  ℕ, ◌≡◌, ◌≢◌, ◌<◌, ◌≤◌, refl, sym, ap, subst, ◌∙◌, inl, inr, Option, Option-cases, some, arith, ok,
}
use egyptian_arabic_annotati.Sessions.State.{Session, Database, SessionFence}
use egyptian_arabic_annotati.Sessions.Fence.{require_session_fence}
use egyptian_arabic_annotati.Sessions.Moves.{
  Moves, kept, dropped, refreshed, created, replaced, Step,
}
use egyptian_arabic_annotati.Sessions.Moves.Every.{Step-Moves}

pub data Run (fingerprint : ℕ → ℕ) (id : ℕ) : Database → Database → Type 0 where
  stop : {db : Database} → Run fingerprint id db db
  call :
      {db mid after : Database} {used : Option ℕ}
      → Run fingerprint id db mid
      → Step fingerprint used mid after
      → used ≢ some id
      → Run fingerprint id db after

-- `row'` is the session `row` later on.
abbrev pub IsSame : Session → Session → Type 0
IsSame row row' =
    (row'.session_id ≡ row.session_id)
    × (row'.generation ≡ row.generation)
    × (row'.login_time ≡ row.login_time)
    × (row'.absolute_expires_at ≡ row.absolute_expires_at)

some_eq : {a b : Session} → ◌≡◌ {A = Option Session} (some a) (some b) → a ≡ b
some_eq e = cc

Moves-IsSame :
    {s s' : Option Session} {q : Option ℕ} (id : ℕ) {row' : Session}
    → Moves q s s'
    → q ≢ some id
    → s' ≡ some row'
    → row'.session_id ≡ id
    → (row : Session) × (s ≡ some row) × IsSame row row'
Moves-IsSame id {row'} kept other e same = (row', e, (refl, refl, refl, refl))
Moves-IsSame id dropped other e same = absurd (cc e)
Moves-IsSame id (refreshed {row} i g l a x) other e same =
    (row, refl, subst (λ r. IsSame row r) (some_eq e) (i, g, l, a))
Moves-IsSame id (created new brought i x) other e same =
    absurd (other (brought ∙ ap some (sym i ∙ ap (λ r. r.session_id) (some_eq e) ∙ same)))
Moves-IsSame id (replaced new brought i g x) other e same =
    absurd (other (brought ∙ ap some (sym i ∙ ap (λ r. r.session_id) (some_eq e) ∙ same)))

-- A session that stands after a run stood before it, under the same generation and login time and
-- with the same absolute deadline: no write, heartbeat or resumed login moves the deadline, and a
-- session that was replaced or signed out never comes back.
pub Run-IsSame :
    {fingerprint : ℕ → ℕ} {id : ℕ} {db after : Database}
    → Run fingerprint id db after
    → (user_id : ℕ) {row' : Session} → after.sessions user_id ≡ some row'
    → row'.session_id ≡ id
    → (row : Session) × (db.sessions user_id ≡ some row) × IsSame row row'
Run-IsSame stop user_id {row'} e same = (row', e, (refl, refl, refl, refl))
Run-IsSame (call run step other) user_id e same =
    let (mid, there, (i, g, l, a)) = Moves-IsSame _ (Step-Moves step user_id) other e same in
    let (row, before, (i', g', l', a')) = Run-IsSame run user_id there (sym i ∙ same) in
    (row, before, (i ∙ i', g ∙ g', l ∙ l', a ∙ a'))

require-row :
    (fence : SessionFence) (now : ℕ) (db : Database)
    → require_session_fence fence now db ≡ ok tt
    → (row : Session) × (db.sessions fence.user_id ≡ some row)
      × (row.session_id ≡ fence.session_id)
      × (now < row.absolute_expires_at)
      × (now < row.expires_at)
unfolding require_session_fence
require-row fence now db e = elim (Option-cases (db.sessions fence.user_id)) [
  | inl gone ↦ ground (arith, gone)
  | inr (row, there) ↦
      (row, there, ground (arith, there), ground (arith, there), ground (arith, there))
]

-- A write passes after a run only where its session stood before the run and its absolute deadline
-- of then is not reached: nobody stays signed in beyond that deadline, and a fence whose session
-- was replaced or signed out is refused for good.
pub require-Run :
    {fingerprint : ℕ → ℕ} (fence : SessionFence) (now : ℕ) {db after : Database}
    → Run fingerprint fence.session_id db after
    → require_session_fence fence now after ≡ ok tt
    → (row : Session) × (db.sessions fence.user_id ≡ some row)
      × (row.session_id ≡ fence.session_id)
      × (now < row.absolute_expires_at)
require-Run fence now {db} {after} run e =
    let (row', there', i', a', x') = require-row fence now after e in
    let (row, there, (i, g, l, a)) = Run-IsSame run fence.user_id there' i' in
    (row, there, sym i ∙ i', subst (λ deadline. now < deadline) a a')

-- No idle deadline lies beyond its absolute one.
abbrev pub IsBounded : Database → Type 0
IsBounded db =
    (user_id : ℕ) (row : Session)
    → db.sessions user_id ≡ some row
    → row.expires_at ≤ row.absolute_expires_at

Moves-bounded :
    (q : Option ℕ) {s s' : Option Session}
    → Moves q s s'
    → ((row : Session) → s ≡ some row → row.expires_at ≤ row.absolute_expires_at)
    → (row' : Session) → s' ≡ some row'
    → row'.expires_at ≤ row'.absolute_expires_at
Moves-bounded q kept h row' e = h row' e
Moves-bounded q dropped h row' e = absurd (cc e)
Moves-bounded q (refreshed {row} i g l a (inl x)) h row' e =
    subst (λ r. r.expires_at ≤ r.absolute_expires_at) (some_eq e) (omega (arith, h row refl))
Moves-bounded q (refreshed {row} i g l a (inr x)) h row' e =
    subst (λ r. r.expires_at ≤ r.absolute_expires_at) (some_eq e) (omega arith)
Moves-bounded q (created new brought i x) h row' e =
    subst (λ r. r.expires_at ≤ r.absolute_expires_at) (some_eq e) x
Moves-bounded q (replaced new brought i g x) h row' e =
    subst (λ r. r.expires_at ≤ r.absolute_expires_at) (some_eq e) x

-- Each call keeps the bound of every idle deadline by its absolute deadline.
pub Step-IsBounded :
    {fingerprint : ℕ → ℕ} {used : Option ℕ} {db after : Database}
    → Step fingerprint used db after
    → IsBounded db
    → IsBounded after
Step-IsBounded step h user_id row e = Moves-bounded _ (Step-Moves step user_id) (h user_id) row e
