-- ===== src/Durable/Auth.antt =====
-- backend/src/libsql-store.ts: the challenges, the sessions and the profiles.
use Prim.Native.String.{◌++◌}
use onlykas.Prelude.{
  ℕ, String, Bool, not, ◌&&◌, ◌||◌, Option, none, some, List, [], ◌∷◌, get_or, leb, ltb, eqb, ◌==◌,
  is_some, if◌then◌else◌, map,
}
use onlykas.Prelude.Lists.{any, take, keep}
use onlykas.Prelude.Sort.{sort}
use onlykas.Sql.{first, insert, update, remove, upsert}
use onlykas.Domain.{Challenge, Session, Profile}
use onlykas.Ports.{Call, returns, throws, ◌>>=◌}
use onlykas.Durable.{Database, ProfileRow}
use onlykas.Durable.Rows.{challenge_from_row, session_from_row, profile_from_row, profile_row}

abbrev pub challenge_clash : Challenge → Challenge → Bool
challenge_clash v r = (r.id == v.id) || (r.nonce == v.nonce)

unfoldable pub create_challenge : Challenge → Database → Call (Unit {0}) × Database
create_challenge v db =
    elim (insert challenge_clash (λ r. ltb 0 r.expires_at) v db.auth_challenges) [
      | none ↦ (throws, db)
      | some t ↦ (returns tt, record db { auth_challenges = t })
    ]

-- `WHERE id=? AND consumed_at IS NULL AND expires_at>?`
abbrev pub can_consume : String → ℕ → Challenge → Bool
can_consume id now r = (r.id == id) && (not (is_some r.consumed_at) && ltb now r.expires_at)

-- The first of the rows that a statement returns, decoded, or null.
abbrev pub decoded {ℓ κ} : {R : Type ℓ} {A : Type κ} → (R → Call A) → Option R → Call (Option A)
decoded decode none = returns none
decoded decode (some r) = decode r >>= λ v. returns (some v)

-- The rows that a query returns, decoded.
abbrev pub decoded_all {ℓ κ} : {R : Type ℓ} {A : Type κ} → (R → Call A) → List R → Call (List A)
decoded_all decode [] = returns []
decoded_all decode (r ∷ rs) = decode r >>= λ v. decoded_all decode rs >>= λ vs. returns (v ∷ vs)

abbrev pub consumed : ℕ → Challenge → Challenge
consumed now r = record r { consumed_at = some now }

unfoldable pub consume_challenge : String → ℕ → Database → Call (Option Challenge) × Database
consume_challenge id now db = (
  decoded challenge_from_row
      (first (map (consumed now) (keep (can_consume id now) db.auth_challenges))),
  record db { auth_challenges = update (can_consume id now) (consumed now) db.auth_challenges },
)

unfoldable pub prune_challenges : ℕ → Database → Database
prune_challenges now db = record db {
  auth_challenges = remove (λ r. is_some r.consumed_at || leb r.expires_at now) db.auth_challenges;
}

unfoldable pub create_session : Session → Database → Call (Unit {0}) × Database
create_session v db = elim (insert (λ w r. r.id == w.id) (λ r. ltb 0 r.expires_at) v db.sessions) [
  | none ↦ (throws, db)
  | some t ↦ (returns tt, record db { sessions = t })
]

unfoldable pub get_session : String → ℕ → Database → Call (Option Session)
get_session id now db =
    decoded session_from_row (first (keep (λ r. (r.id == id) && ltb now r.expires_at) db.sessions))

unfoldable pub roll_session : String → ℕ → Database → Call (Unit {0}) × Database
roll_session id expires_at db =
    let test = λ (r : Session). r.id == id in
    -- the `CHECK` of the table refuses the time 0 where there is a row to change
    if is_some (first (keep test db.sessions)) && leb expires_at 0 then (throws, db) else (
      returns tt,
      record db { sessions = update test (λ r. record r { expires_at = expires_at }) db.sessions },
    )

unfoldable pub delete_session : String → Database → Database
delete_session id db = record db { sessions = remove (λ r. r.id == id) db.sessions }

unfoldable pub prune_sessions : ℕ → Database → Database
prune_sessions now db = record db { sessions = remove (λ r. leb r.expires_at now) db.sessions }

unfoldable pub get_profile : String → Database → Call (Option Profile)
get_profile address db =
    decoded profile_from_row (first (keep (λ r. r.address == address) db.profiles))

unfoldable pub save_profile : Profile → Database → Call (Unit {0}) × Database
save_profile v db = if leb v.updated_at 0 then (throws, db) else (
  returns tt,
  record db {
    profiles =
        upsert (λ r. r.address == v.address) (λ _. profile_row v) (profile_row v) db.profiles;
  },
)

-- SQLite's `lower(a)`, `a LIKE pattern`, and `a <= b` in its order of texts.
pub record SqlText : Type 0 where
  pub lower : String → String
  pub like : String → String → Bool
  pub binary : String → String → Bool

-- `EXISTS (SELECT 1 FROM posts WHERE creator=p.address)`
abbrev pub has_posts : Database → ProfileRow → Bool
has_posts db p = any (λ r. r.creator == p.address) db.posts

module _ (sql : SqlText) where
  abbrev pub is_named_like : String → ProfileRow → Bool
  is_named_like pattern p = elim p.display_name [
    | none ↦ Bool.false
    | some name ↦ sql.like (sql.lower name) (sql.lower pattern)
  ]

  -- `ORDER BY display_name`, or its address where a profile has no name.
  abbrev pub name_order : ProfileRow → ProfileRow → Bool
  name_order a b = sql.binary (get_or a.display_name a.address) (get_or b.display_name b.address)

  unfoldable pub search_creators : String → ℕ → Database → Call (List Profile)
  search_creators name limit db = decoded_all profile_from_row (
      take limit (
        sort name_order
          (keep (λ p. is_named_like ("%" ++ name ++ "%") p && has_posts db p) db.profiles)))

  unfoldable pub public_creators : ℕ → Database → Call (List Profile)
  public_creators limit db =
      decoded_all profile_from_row
        (take limit (sort name_order (keep (λ p. eqb p.is_public 1 && has_posts db p) db.profiles)))
