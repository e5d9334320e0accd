-- ===== src/Rtsp/Server/Timeout.antt =====
-- What handle_timeout_of_host leaves.
use Prim.Native.String.{String}
use text.Mathlib.Text.{◌==◌}
use rtsp.Common.{
  ℕ, zero, suc, ◌<◌, ◌≡◌, inl, inr, refl, sym, ◌∙◌, subst, Bool, true, false, ◌||◌, Option, none,
  some, List, [], ◌∷◌, length, arith, Bool-cases, Option-cases, if◌then◌else◌,
}
use rtsp.Rtsp.Definitions.{Address}
use rtsp.Rtsp.Headers.{lookup}
use rtsp.Rtsp.Server.{
  ServerState, delete_session, find_host, erase_host, drop_sessions_of, handle_timeout_of_host,
}
use rtsp.Rtsp.Server.Sessions.{lookup-delete_session}
use rtsp.Rtsp.Server.Invariant.{IsValid, AreValid, delete_session-AreValid}

abbrev pub Entries : Type 0
Entries = List (Address × String)

-- The entries of the other hosts.
unfoldable pub others : Address → Entries → Entries
others host [] = []
others host ((h, identifier) ∷ entries) =
    if rtsp.Common.◌==◌ h host then others host entries else (h, identifier) ∷ others host entries

-- Some entry of the host names the session.
unfoldable pub names : Address → String → Entries → Bool
names host key [] = false
names host key ((h, identifier) ∷ entries) =
    if rtsp.Common.◌==◌ h host
    then (identifier == key) || names host key entries
    else names host key entries

others-none :
    (host : Address) (entries : Entries)
    → find_host host entries ≡ none
    → others host entries ≡ entries
unfolding find_host others
others-none host [] e = refl
others-none host ((h, i) ∷ entries) e = ground (arith, others-none host entries)

names-none :
    (host : Address) (key : String) (entries : Entries)
    → find_host host entries ≡ none
    → names host key entries ≡ false
unfolding find_host names
names-none host key [] e = refl
names-none host key ((h, i) ∷ entries) e = ground (arith, names-none host key entries)

others-erase_host :
    (host : Address) (entries : Entries)
    → others host (erase_host host entries) ≡ others host entries
unfolding erase_host others
others-erase_host host [] = refl
others-erase_host host ((h, i) ∷ entries) = ground (arith, others-erase_host host entries)

names-erase_host :
    (host : Address) (key : String) (entries : Entries) {identifier : String}
    → find_host host entries ≡ some identifier
    → names host key entries ≡ ((identifier == key) || names host key (erase_host host entries))
unfolding find_host erase_host names
names-erase_host host key [] e = cc
names-erase_host host key ((h, i) ∷ entries) {identifier} e =
    ground (arith, names-erase_host host key entries {identifier = identifier})

length-erase_host :
    (host : Address) (entries : Entries) {identifier : String}
    → find_host host entries ≡ some identifier
    → suc (length (erase_host host entries)) ≡ length entries
unfolding find_host erase_host
length-erase_host host [] e = cc
length-erase_host host ((h, i) ∷ entries) {identifier} e =
    ground (arith, length-erase_host host entries {identifier = identifier})

-- What is left of a state when a host is gone: the entries of the other hosts, and of the sessions
-- those that no entry of the host names.
pub record IsWithout (host : Address) (before after : ServerState) : Type 0 where
  pub other_entries : after.sessions_by_host ≡ others host before.sessions_by_host
  pub other_sessions :
      (key : String)
      → lookup key after.sessions
        ≡ (if names host key before.sessions_by_host then none else lookup key before.sessions)

drop_sessions_of-IsWithout :
    (fuel : ℕ) (host : Address) (state : ServerState)
    → length state.sessions_by_host < fuel
    → AreValid state.sessions
    → (after : ServerState) × (drop_sessions_of fuel host state ≡ some after)
      × IsWithout host state after
      × IsValid after
unfolding drop_sessions_of
drop_sessions_of-IsWithout zero host state lt v = absurd (omega arith)
drop_sessions_of-IsWithout (suc fuel) host state lt v =
    elim (Option-cases (find_host host state.sessions_by_host)) [
      | inl e ↦ (
        state,
        rw (e, drop_sessions_of) refl,
        record {
          other_entries = sym (others-none host state.sessions_by_host e);
          other_sessions = λ key. rw (names-none host key state.sessions_by_host e);
        },
        record { valid_sessions = v },
      )
      | inr (identifier, e) ↦
          let (after, same, without, valid) =
            drop_sessions_of-IsWithout fuel host
              (record {
                sessions = delete_session identifier state.sessions;
                sessions_by_host = erase_host host state.sessions_by_host;
              })
              (omega (arith, length-erase_host host state.sessions_by_host e))
              (delete_session-AreValid identifier state.sessions v) in
          (
            after,
            rw (e, drop_sessions_of) same,
            record {
              other_entries = without.other_entries ∙ others-erase_host host state.sessions_by_host;
              other_sessions = λ key. ground (
                arith,
                without.other_sessions key,
                names-erase_host host key state.sessions_by_host e,
                lookup-delete_session key identifier state.sessions v.0,
              );
            },
            valid,
          )
    ]

-- For every valid state and host, if the destructor of each sender that is erased returns: the loop has
-- at most one round more than the hosts have entries, and
-- afterwards the host has no entry and the other hosts have theirs in their order, exactly the
-- sessions that an entry of the host named are gone, every other one is as it was, and the state
-- is valid.
pub handle_timeout_of_host-IsWithout :
    (host : Address) (state : ServerState)
    → IsValid state
    → (after : ServerState) × (handle_timeout_of_host host state ≡ some after)
      × IsWithout host state after
      × IsValid after
unfolding handle_timeout_of_host
handle_timeout_of_host-IsWithout host state v =
    drop_sessions_of-IsWithout (suc (length state.sessions_by_host)) host state (omega arith)
      v.valid_sessions
