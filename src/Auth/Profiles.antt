-- ===== src/Auth/Profiles.antt =====
-- backend/src/application/auth-use-cases.ts: sessions that roll, and profile updates.
use mathlib.Core.Option
use onlykas.Prelude.{
  refl, ltb, ◌⊎◌, if◌then◌else◌, ℕ, String, ◌≡◌, true, Option, none, some, arith, eq_iff, is_some,
  get_or, or_else, inl, inr, Option-cases, Bool-cases, ◌&&◌, ◌==◌,
}
use onlykas.Map.{get}
use onlykas.Map.Laws.{get-set, get-delete}
use onlykas.Domain.{Session, Profile}
use onlykas.Store.{Store}
use onlykas.Store.Auth.{get_session, roll_session, delete_session, get_profile, save_profile}
use onlykas.Auth.{
  refresh_session, logout, ProfileUpdateInput, invalid_display_name, updated, update_profile,
  differs, next_name, blank_to_null, stored_name, stored_visibility,
}

-- A session that can be read at `now` is returned by a refresh with the new expiry, and is read up to
-- then and not from then on; one that cannot be read is not revived, and every session is read as
-- before.
pub refresh_session_outcome :
    (id : String) (now expires_at t : ℕ) (s : Store)
    → let (result, s') = refresh_session id now expires_at s in
      (result
        ≡ Option.map (λ (x : Session). record x { expires_at = expires_at }) (get_session id now s))
      × (get_session id t s' ≡ (
          if is_some result
          then (if ltb t expires_at then result else none)
          else get_session id t s))
unfolding refresh_session get_session roll_session
refresh_session_outcome id now expires_at t s = elim (Option-cases (get id s.sessions)) [
  | inl e ↦ (ground arith, ground arith)
  | inr (y, e) ↦ (
    ground arith,
    ground (arith, eq_iff id id, get-set id id (record y { expires_at = expires_at }) s.sessions),
  )
]

-- After a logout the session cannot be read at any time, and every other session is read as before.
pub logout_outcome :
    (id other : String) (t : ℕ) (s : Store)
    → get_session other t (logout id s) ≡ (if id == other then none else get_session other t s)
unfolding logout delete_session get_session
logout_outcome id other t s = ground (arith, eq_iff id other, get-delete id other s.sessions)

module _ (normalize : String → String) (validate : String → Option String)
    (input : ProfileUpdateInput) (s : Store) where
  abbrev existing : Option Profile
  existing = get_profile input.address s

  -- An update is refused only for a display name that is given, and then the store is as before; or the
  -- stored profile is the returned one. Then a field that is not given keeps its stored value (a profile
  -- is public at first), a given name is stored normalized, an empty name is stored as none, and the
  -- profiles of others are as before.
  pub update_profile_outcome :
      (other : String)
      → let (result, t) = update_profile normalize validate input s in
        ((result ≡ invalid_display_name) × (is_some input.display_name ≡ true) × (t ≡ s))
        ⊎ ((profile : Profile) × (result ≡ updated profile)
            × (profile.updated_at ≡ input.now)
            × (profile.is_public
                ≡ get_or (or_else input.is_public (stored_visibility existing)) true)
            × (profile.display_name
                ≡ blank_to_null
                    (or_else (Option.map normalize input.display_name) (stored_name existing)))
            × (get_profile other t
                ≡ (if input.address == other then some profile else get_profile other s)))
  unfolding update_profile save_profile get_profile next_name
  update_profile_outcome other =
      let a = input.address in
      let name = next_name normalize validate input.display_name existing in
      let v : Profile = record {
        address = a;
        display_name = blank_to_null name;
        is_public = get_or (or_else input.is_public (stored_visibility existing)) true;
        updated_at = input.now;
      } in
      let others = get-set a other v s.profiles in
      elim (Bool-cases (is_some input.display_name && differs (validate (get_or name "")) name)) [
        | inl refused ↦
            inl (ground (arith, refused), ground (arith, refused), ground (arith, refused))
        | inr fine ↦ inr (
          v,
          ground (arith, fine),
          refl,
          refl,
          elim (Option-cases input.display_name) [
            | inl e ↦ ground (arith, e)
            | inr (given, e) ↦ ground (arith, e)
          ],
          ground (arith, fine, others),
        )
      ]
