-- ===== src/Store/Auth.antt =====
-- backend/src/memory-store.ts: the challenges, the sessions and the
-- profiles. The collation and the case folding of the host are the parameter `Locale`.
use onlykas.Prelude.{
  ℕ, String, Bool, false, ◌||◌, Option, none, some, List, leb, ltb, ◌==◌, is_some, get_or,
  if◌then◌else◌,
}
use onlykas.Prelude.Lists.{take, any, keep}
use onlykas.Prelude.Sort.{sort}
use onlykas.Map.{get, set, delete, values, prune}
use onlykas.Locale.{Locale}
use onlykas.Domain.{Challenge, Session, Profile}
use onlykas.Store.{Store}

unfoldable pub create_challenge : Challenge → Store → Store
create_challenge v s = record s { challenges = set v.id v s.challenges }

unfoldable pub consume_challenge : String → ℕ → Store → Option Challenge × Store
consume_challenge id now s = elim (get id s.challenges) [
  | none ↦ (none, s)
  | some v ↦
      if is_some v.consumed_at || leb v.expires_at now
      then (none, s)
      else let v' = record v { consumed_at = some now } in
        (some v', record s { challenges = set id v' s.challenges })
]

unfoldable pub prune_challenges : ℕ → Store → Store
prune_challenges now s = record s {
  challenges =
      prune (λ (v : Challenge). is_some v.consumed_at || leb v.expires_at now) s.challenges;
}

unfoldable pub create_session : Session → Store → Store
create_session v s = record s { sessions = set v.id v s.sessions }

unfoldable pub get_session : String → ℕ → Store → Option Session
get_session id now s = elim (get id s.sessions) [
  | none ↦ none
  | some v ↦ if ltb now v.expires_at then some v else none
]

unfoldable pub roll_session : String → ℕ → Store → Store
roll_session id expires_at s = elim (get id s.sessions) [
  | none ↦ s
  | some v ↦ record s { sessions = set id (record v { expires_at = expires_at }) s.sessions }
]

unfoldable pub delete_session : String → Store → Store
delete_session id s = record s { sessions = delete id s.sessions }

unfoldable pub prune_sessions : ℕ → Store → Store
prune_sessions now s = record s {
  sessions = prune (λ (v : Session). leb v.expires_at now) s.sessions;
}

unfoldable pub get_profile : String → Store → Option Profile
get_profile address s = get address s.profiles

unfoldable pub save_profile : Profile → Store → Store
save_profile v s = record s { profiles = set v.address v s.profiles }

module _ (locale : Locale) where
  unfoldable pub has_posts : Store → String → Bool
  has_posts s address = any (λ p. p.creator == address) (values s.posts)

  unfoldable pub name_includes : String → Option String → Bool
  name_includes q none = false
  name_includes q (some name) = locale.includes (locale.lower name) q

  unfoldable pub search_creators : String → ℕ → Store → List Profile
  unfolding has_posts name_includes
  search_creators name limit s =
      let q = locale.lower name in
      take limit (
        keep (λ v. has_posts s v.address)
          (keep (λ v. name_includes q v.display_name) (values s.profiles)))

  abbrev pub name_order : Profile → Profile → Bool
  name_order a b =
      locale.collate (get_or a.display_name a.address) (get_or b.display_name b.address)

  unfoldable pub public_creators : ℕ → Store → List Profile
  unfolding has_posts
  public_creators limit s = take limit (
      sort name_order
        (keep (λ v. has_posts s v.address) (keep (λ v. v.is_public) (values s.profiles))))
