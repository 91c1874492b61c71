-- ===== src/Durable/Mirrors/Auth.antt =====
-- The challenges, sessions and profiles of `LibsqlStore` and of `MemoryStore` under the same call.
use onlykas.Prelude.{
  ℕ, ◌≡◌, refl, String, not, ◌&&◌, ◌||◌, arith, ◌==◌, is_some, leb, ltb, inl, inr, Option-cases,
}
use onlykas.Map.{get}
use onlykas.Domain.{Challenge, Session, Profile}
use onlykas.Ports.{returns}
use onlykas.Sql.Laws.{
  rows, any-rows, update-rows, update_key-rows, upsert-rows, remove-rows, rows-set_fresh,
  fresh-rows, insert-cases, remove-rows-prune,
}
use onlykas.Store.{Store}
use onlykas.Store.Auth.{
  create_challenge, consume_challenge, prune_challenges, create_session, roll_session,
  delete_session, prune_sessions, save_profile,
}
use onlykas.Store.Keys.{IsKeyed, challenge_id, session_id, profile_id}
use onlykas.Durable.{Database}
use onlykas.Durable.Rows.{profile_row}
use onlykas.Durable.Auth
use onlykas.Durable.Auth.{challenge_clash, consumed}
use onlykas.Durable.Mirrors.{same}

module _ (db : Database) (s : Store) (k : IsKeyed s)
    (e : db.auth_challenges ≡ rows same s.challenges) where
  pub create_challenge-rows :
      (v : Challenge)
      → (Auth.create_challenge v db).0 ≡ returns tt
      → (Auth.create_challenge v db).1.auth_challenges ≡ rows same (create_challenge v s).challenges
  unfolding Auth.create_challenge create_challenge
  create_challenge-rows v h =
      elim (insert-cases challenge_clash (λ r. ltb 0 r.expires_at) v db.auth_challenges) [
        | inl refused ↦ ground (arith, refused, h)
        | inr (free, done) ↦ ground (
          arith,
          done,
          e,
          rows-set_fresh same v.id v s.challenges (
              fresh-rows same challenge_id (λ r. r.id) (λ r. refl) v.id (λ r. r.nonce == v.nonce)
                s.challenges k.challenges (rw (← e) free)),
        )
      ]

  pub consume_challenge-rows :
      (id : String) (now : ℕ)
      → (Auth.consume_challenge id now db).1.auth_challenges
        ≡ rows same (consume_challenge id now s).1.challenges
  unfolding Auth.consume_challenge consume_challenge
  consume_challenge-rows id now =
      let step =
        update-rows same challenge_id (λ r. r.id) (λ r. refl) id
          (λ r. not (is_some r.consumed_at) && ltb now r.expires_at) (consumed now) (consumed now)
          s.challenges (λ v. refl) k.challenges in
      elim (Option-cases (get id s.challenges)) [
        | inl f ↦ ground (arith, e, f, step)
        | inr (w, f) ↦ ground (arith, e, f, step)
      ]

  pub prune_challenges-rows :
      (now : ℕ)
      → (Auth.prune_challenges now db).auth_challenges
        ≡ rows same (prune_challenges now s).challenges
  unfolding Auth.prune_challenges prune_challenges
  prune_challenges-rows now = rw e (
      remove-rows-prune same (λ (r : Challenge). is_some r.consumed_at || leb r.expires_at now)
        s.challenges)

module _ (db : Database) (s : Store) (k : IsKeyed s) (e : db.sessions ≡ rows same s.sessions) where
  pub create_session-rows :
      (v : Session)
      → (Auth.create_session v db).0 ≡ returns tt
      → (Auth.create_session v db).1.sessions ≡ rows same (create_session v s).sessions
  unfolding Auth.create_session create_session
  create_session-rows v h =
      elim (insert-cases (λ w r. r.id == w.id) (λ r. ltb 0 r.expires_at) v db.sessions) [
        | inl refused ↦ ground (arith, refused, h)
        | inr (free, done) ↦ ground (
          arith,
          done,
          free,
          e,
          any-rows same session_id (λ r. r.id) (λ r. refl) v.id s.sessions k.sessions,
          rows-set_fresh same v.id v s.sessions,
        )
      ]

  pub roll_session-rows :
      (id : String) (expires_at : ℕ)
      → (Auth.roll_session id expires_at db).0 ≡ returns tt
      → (Auth.roll_session id expires_at db).1.sessions
        ≡ rows same (roll_session id expires_at s).sessions
  unfolding Auth.roll_session roll_session
  roll_session-rows id expires_at h =
      let step =
        update_key-rows same session_id (λ r. r.id) (λ r. refl) id
          (λ r. record r { expires_at = expires_at }) (λ r. record r { expires_at = expires_at })
          s.sessions (λ w f. refl) k.sessions in
      elim (Option-cases (get id s.sessions)) [
        | inl f ↦ ground (arith, e, f, step)
        | inr (w, f) ↦ ground (arith, e, f, step)
      ]

  pub delete_session-rows :
      (id : String)
      → (Auth.delete_session id db).sessions ≡ rows same (delete_session id s).sessions
  unfolding Auth.delete_session delete_session
  delete_session-rows id =
      rw e (remove-rows same session_id (λ r. r.id) (λ r. refl) id s.sessions k.sessions)

  pub prune_sessions-rows :
      (now : ℕ) → (Auth.prune_sessions now db).sessions ≡ rows same (prune_sessions now s).sessions
  unfolding Auth.prune_sessions prune_sessions
  prune_sessions-rows now =
      rw e (remove-rows-prune same (λ (r : Session). leb r.expires_at now) s.sessions)

module _ (db : Database) (s : Store) (k : IsKeyed s)
    (e : db.profiles ≡ rows profile_row s.profiles) where
  pub save_profile-rows :
      (v : Profile)
      → (Auth.save_profile v db).0 ≡ returns tt
      → (Auth.save_profile v db).1.profiles ≡ rows profile_row (save_profile v s).profiles
  unfolding Auth.save_profile save_profile profile_row
  save_profile-rows v h = ground (
    arith,
    e,
    upsert-rows profile_row profile_id (λ r. r.address) (λ r. refl) v.address (λ _. profile_row v) v
        s.profiles (λ w f. refl) k.profiles,
  )
