-- ===== src/Rtsp/Server/Sessions.antt =====
-- The maps of rtsp_server_state: what a lookup finds after each of their operations.
use Prim.Native.String.{String}
use text.Mathlib.Text.{◌==◌}
use text.Mathlib.TextEquality.{eq_iff}
use text.Mathlib.TextPositions.{eq_refl}
use rtsp.Common.{
  false, Option, none, some, List, [], ◌∷◌, ◌≡◌, ◌≢◌, value_or, if_cases, inl, inr, refl,
  if◌then◌else◌, arith, Bool-cases,
}
use rtsp.Rtsp.Headers.{lookup}
use rtsp.Rtsp.Methods.{ServerSession, Answer, replies, throws, dereferences_null}
use rtsp.Rtsp.Server.{emplace, assign, after_method, delete_session}

abbrev pub Sessions : Type 0
Sessions = List (String × ServerSession)

-- No key occurs twice.
abbrev pub Distinct : Sessions → Type 0
Distinct [] = Unit {0}
Distinct ((k, s) ∷ sessions) = (lookup k sessions ≡ none) × Distinct sessions

pub lookup-emplace :
    (key name : String) (session : ServerSession) (sessions : Sessions)
    → lookup key (emplace name session sessions) ≡ (
        if name == key then some (value_or (lookup name sessions) session) else lookup key sessions)
unfolding lookup emplace
lookup-emplace key name session [] = refl
lookup-emplace key name session ((k, s) ∷ sessions) =
    ground (
      arith,
      eq_iff k name,
      eq_iff k key,
      eq_iff name key,
      lookup-emplace key name session sessions,
    )

-- The entry after a write, if there was one.
abbrev pub replaced : Option ServerSession → ServerSession → Option ServerSession
replaced none session = none
replaced (some s) session = some session

pub lookup-assign :
    (key name : String) (session : ServerSession) (sessions : Sessions)
    → lookup key (assign name session sessions)
      ≡ (if name == key then replaced (lookup name sessions) session else lookup key sessions)
unfolding lookup assign
lookup-assign key name session [] = ground arith
lookup-assign key name session ((k, s) ∷ sessions) =
    ground
      (arith, eq_iff k name, eq_iff k key, eq_iff name key, lookup-assign key name session sessions)

pub lookup-delete_session :
    (key name : String) (sessions : Sessions)
    → Distinct sessions
    → lookup key (delete_session name sessions)
      ≡ (if name == key then none else lookup key sessions)
unfolding lookup delete_session
lookup-delete_session key name [] d = ground arith
lookup-delete_session key name ((k, s) ∷ sessions) (fresh, d) =
    ground (
      arith,
      eq_iff k name,
      eq_iff k key,
      eq_iff name key,
      lookup-delete_session key name sessions d,
    )

pub emplace-Distinct :
    (name : String) (session : ServerSession) (sessions : Sessions)
    → Distinct sessions
    → Distinct (emplace name session sessions)
unfolding lookup emplace
emplace-Distinct name session [] d = (refl, tt)
emplace-Distinct name session ((k, s) ∷ sessions) (fresh, d) = elim (Bool-cases (k == name)) [
  | inl hit ↦ rw hit (fresh, d)
  | inr miss ↦ rw miss (
    ground (arith, eq_iff k name, eq_iff name k, lookup-emplace k name session sessions),
    emplace-Distinct name session sessions d,
  )
]

pub assign-Distinct :
    (name : String) (session : ServerSession) (sessions : Sessions)
    → Distinct sessions
    → Distinct (assign name session sessions)
unfolding assign
assign-Distinct name session [] d = tt
assign-Distinct name session ((k, s) ∷ sessions) (fresh, d) = elim (Bool-cases (k == name)) [
  | inl hit ↦ rw hit (fresh, d)
  | inr miss ↦ rw miss (
    ground (arith, eq_iff k name, eq_iff name k, lookup-assign k name session sessions),
    assign-Distinct name session sessions d,
  )
]

pub delete_session-Distinct :
    (name : String) (sessions : Sessions)
    → Distinct sessions
    → Distinct (delete_session name sessions)
unfolding delete_session
delete_session-Distinct name [] d = tt
delete_session-Distinct name ((k, s) ∷ sessions) (fresh, d) = elim (Bool-cases (k == name)) [
  | inl hit ↦ rw hit d
  | inr miss ↦ rw miss (
    ground (arith, eq_iff k name, eq_iff name k, lookup-delete_session k name sessions d),
    delete_session-Distinct name sessions d,
  )
]

pub lookup-emplace_fresh :
    (key : String) (session : ServerSession) (sessions : Sessions)
    → lookup key sessions ≡ none
    → lookup key (emplace key session sessions) ≡ some session
lookup-emplace_fresh key session sessions fresh =
    ground (arith, eq_refl key, lookup-emplace key key session sessions)

pub lookup-assign_same :
    (key : String) (session : ServerSession) (sessions : Sessions) {old : ServerSession}
    → lookup key sessions ≡ some old
    → lookup key (assign key session sessions) ≡ some session
lookup-assign_same key session sessions known =
    ground (arith, eq_refl key, lookup-assign key key session sessions)

pub lookup-delete_session_same :
    (key : String) (sessions : Sessions)
    → Distinct sessions
    → lookup key (delete_session key sessions) ≡ none
lookup-delete_session_same key sessions d =
    ground (arith, eq_refl key, lookup-delete_session key key sessions d)

-- The operations on one key leave the others alone.
module _ {key name : String} (apart : name ≢ key) where
  differs : (name == key) ≡ false
  differs = elim (Bool-cases (name == key)) [
    | inl hit ↦ absurd (apart ((eq_iff name key).0 hit))
    | inr miss ↦ miss
  ]

  pub lookup-emplace_other :
      (session : ServerSession) (sessions : Sessions)
      → lookup key (emplace name session sessions) ≡ lookup key sessions
  lookup-emplace_other session sessions =
      ground (arith, differs, lookup-emplace key name session sessions)

  pub lookup-assign_other :
      (session : ServerSession) (sessions : Sessions)
      → lookup key (assign name session sessions) ≡ lookup key sessions
  lookup-assign_other session sessions =
      ground (arith, differs, lookup-assign key name session sessions)

  pub lookup-after_method_other :
      (method : String) (answer : Answer) (sessions : Sessions)
      → Distinct sessions
      → lookup key (after_method method name answer sessions) ≡ lookup key sessions
  lookup-after_method_other method (replies response) sessions d =
      if_cases (λ left. lookup key left ≡ lookup key sessions) (method == "TEARDOWN")
        (λ _. ground (arith, differs, lookup-delete_session key name sessions d)) (λ _. refl)
  lookup-after_method_other method throws sessions d = refl
  lookup-after_method_other method dereferences_null sessions d = refl
