-- ===== src/Auth/Login/Revocation.antt =====
-- What `revokeSession` does.
use sentinel_vault.Common.{
  ℕ, ◌+◌, ◌*◌, ◌<◌, String, Bool, true, ◌≡◌, ◌≢◌, inl, inr, refl, sym, subst, ap, ◌∙◌, Option, none,
  some, List, [], ◌∷◌, map, All, ltb, eq_iff, eq_refl, arith, Bool-cases,
}
use sentinel_vault.Common.Exec.{ok, err, bad_request}
use sentinel_vault.Common.Repository.{descending}
use sentinel_vault.Auth.Login.{AuthService, Session}
use sentinel_vault.Auth.Login.Sessions.{
  State, owned_session, open_session, last_active, is_session, revoke_session, revoke_found,
  is_current, get_user_sessions,
}

module _ (service : AuthService) where
  open service use {sessions, denylist}

  -- The session is stored as revoked and denied for a day, and no other session changes.
  abbrev pub Revoked : ℕ → String → String → State service → State service → Type 0
  Revoked now user id s s' =
      ((session : Session) × (sessions.at s.session_table id ≡ some session)
        × (session.user_id ≡ user)
        × (sessions.at s'.session_table id
            ≡ some (record session { is_revoked = true; last_active_at = now })))
      × ((k : String) → k ≢ id → sessions.at s'.session_table k ≡ sessions.at s.session_table k)
      × ((t : ℕ) → t < now + 86400 * 1000 → denylist.read t id s'.deny_store ≡ some "1")

  revoke_found-Revoked :
      (now : ℕ) (user id : String) (o : Option Session) (s : State service)
      → sessions.find_one (owned_session user id) s.session_table ≡ o
      → (revoke_found service now user id o s).0 ≡ ok tt
      → Revoked now user id s (revoke_found service now user id o s).1
  revoke_found-Revoked now user id none s e h = cc
  revoke_found-Revoked now user id (some session) s e h =
      let (hit, stored) =
        sessions.find_one-some (owned_session user id) s.session_table session e in
      let same : (session.id ≡ id) = ground (arith, eq_iff session.id id) in
      let row = record session { is_revoked = true; last_active_at = now } in
      (
        (
          session,
          subst (λ j. sessions.at s.session_table j ≡ some session) same stored,
          ground (arith, eq_iff session.user_id user),
          sessions.at-save row s.session_table id ∙ rw ((eq_iff session.id id).1 same) refl,
        ),
        λ k other.
            sessions.at-save row s.session_table k
            ∙ ground (arith, eq_iff session.id k, same, other),
        λ t early.
            denylist.read-set_ex now t id id "1" 86400 s.deny_store
            ∙ rw eq_refl
                (let soon : (ltb t (now + 86400 * 1000) ≡ true) = ground arith in rw soon refl),
      )

  unlisted :
      (user id : String) (jti : Option String) (session : Session) (t : sessions.Table)
      (rows : List Session)
      → sessions.at t id ≡ some session
      → session.is_revoked ≡ true
      → All (λ x. (open_session user x ≡ true) × (sessions.at t x.id ≡ some x)) rows
      → All
          (λ ((x, c) : Session × Bool). x.id ≢ id)
          (map (λ (x : Session). (x, is_session jti x.id)) rows)
  unlisted user id jti session t [] stored revoked h = tt
  unlisted user id jti session t (x ∷ rows) stored revoked h = (
    λ e. let same : (x ≡ session) = ground (arith, h.0.1, stored, e) in ground (arith, h.0.0),
    unlisted user id jti session t rows stored revoked h.1,
  )

  -- Revocation, and what every later list of sessions shows.
  abbrev pub Denied : ℕ → String → String → State service → State service → Type 0
  Denied now user id s s' =
      Revoked now user id s s'
      × ((user' : String) (jti' : Option String)
          → (rows : List (Session × Bool)) × ((get_user_sessions service user' jti' s').0 ≡ ok rows)
            × All (λ ((x, c) : Session × Bool). x.id ≢ id) rows)

  Revoked-Denied :
      (now : ℕ) (user id : String) (s s' : State service)
      → Revoked now user id s s'
      → Denied now user id s s'
  unfolding get_user_sessions
  Revoked-Denied now user id s s' h = (
    h,
    λ user' jti'. (
      map (λ (x : Session). (x, is_session jti' x.id))
          (sessions.find (descending last_active) (open_session user') s'.session_table),
      refl,
      unlisted user' id jti' (record h.0.0 { is_revoked = true; last_active_at = now })
          s'.session_table
          (sessions.find (descending last_active) (open_session user') s'.session_table) h.0.3 refl
          (sessions.find-sound (descending last_active) (open_session user') s'.session_table),
    ),
  )

  -- A session that was revoked without an error was the user's own: it is stored as revoked, its
  -- identifier is on the deny list for a day, every other session is as before, and no list of
  -- sessions, of any user, shows it any more.
  pub revoke_denies :
      (now : ℕ) (user id : String) (jti : Option String) (s : State service)
      → (revoke_session service now user jti id s).0 ≡ ok tt
      → Denied now user id s (revoke_session service now user jti id s).1
  unfolding revoke_session
  revoke_denies now user id jti s h =
      let o = sessions.find_one (owned_session user id) s.session_table in
      elim (Bool-cases (is_current service jti id)) [
        | inl e ↦
            let refused : ((revoke_session service now user jti id s).0 ≡ err bad_request) =
              rw e refl in
            cc
        | inr e ↦
            let same : (revoke_session service now user jti id s
                ≡ revoke_found service now user id o s) =
              rw e refl in
            Revoked-Denied now user id s (revoke_session service now user jti id s).1 (
              subst (λ r. Revoked now user id s r.1) (sym same)
                (revoke_found-Revoked now user id o s refl (ap (λ r. r.0) (sym same) ∙ h)))
      ]
