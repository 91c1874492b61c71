-- ===== src/Durable/Migrations.antt =====
-- backend/src/adapters/persistence/migrations.ts: `applyMigrations`. What a batch of statements does
-- to the rest of the database, or that it throws, is a parameter; a batch that throws changes
-- nothing. `applied` are the rows of schema_migrations, as versions.
use onlykas.Prelude.{
  ℕ, String, ◌≡◌, refl, ap, Bool, true, false, ◌||◌, List, [], ◌∷◌, ◌++◌, arith, eqb, inl, inr,
  Bool-cases, if◌then◌else◌,
}
use onlykas.Prelude.Lists.{any}
use onlykas.Ports.{Call, returns, throws, Call-cases}

pub record Migration : Type 0 where
  pub version : ℕ
  pub name : String
  pub statements : List String

pub record Schema (D : Type 0) : Type 0 where
  pub applied : List ℕ
  pub content : D

-- `versions.has(version)`
abbrev pub has : List ℕ → ℕ → Bool
has versions version = any (λ v. eqb v version) versions

module _ {D : Type 0} (batch : List String → D → Call D) where
  -- One turn of the loop, for a set of versions that was read before it.
  unfoldable pub apply_migration : List ℕ → Migration → Schema D → Call (Schema D)
  apply_migration versions m s =
      if has versions m.version then returns s else elim (batch m.statements s.content) [
        | throws ↦ throws
        | returns d ↦
            -- `version` is the primary key of schema_migrations
            if has s.applied m.version
            then throws
            else returns (record { applied = s.applied ++ (m.version ∷ []); content = d })
      ]

  -- The loop: whether it ends, and the schema that it leaves, also where it throws.
  unfoldable pub apply_each : List ℕ → List Migration → Schema D → Bool × Schema D
  apply_each versions [] s = (true, s)
  apply_each versions (m ∷ ms) s = elim (apply_migration versions m s) [
    | throws ↦ (false, s)
    | returns s' ↦ apply_each versions ms s'
  ]

  unfoldable pub apply_migrations : List Migration → Schema D → Bool × Schema D
  apply_migrations ms s = apply_each s.applied ms s

abbrev pub IsApplied : {D : Type 0} → Schema D → Migration → Type 0
IsApplied s m = has s.applied m.version ≡ true

abbrev pub AllApplied : {D : Type 0} → Schema D → List Migration → Type 0
AllApplied s [] = Unit
AllApplied s (m ∷ ms) = IsApplied s m × AllApplied s ms

has-append : (vs : List ℕ) (v w : ℕ) → has (vs ++ (v ∷ [])) w ≡ (has vs w || eqb v w)
has-append [] v w = ground arith
has-append (u ∷ vs) v w = ground (arith, has-append vs v w)

move :
    {D : Type 0} (s t : Schema D) (ms : List Migration) → s ≡ t → AllApplied t ms → AllApplied s ms
move s t ms e h = rw e h

module _ {D : Type 0} (batch : List String → D → Call D) where
  -- A turn that does not throw applies its migration, and keeps what was applied.
  apply_migration-has :
      (vs : List ℕ) (m : Migration) (s t : Schema D)
      → (has vs m.version ≡ true → has s.applied m.version ≡ true)
      → apply_migration batch vs m s ≡ returns t
      → IsApplied t m × ((n : ℕ) → has s.applied n ≡ true → has t.applied n ≡ true)
  unfolding apply_migration
  apply_migration-has vs m s t read e = elim (Bool-cases (has vs m.version)) [
    | inl h ↦ (ground (arith, h, e, read), λ n k. ground (arith, h, e, k))
    | inr h ↦ elim (Call-cases (batch m.statements s.content)) [
      | inl f ↦ absurd (ground (arith, h, e, f))
      | inr (d, f) ↦ elim (Bool-cases (has s.applied m.version)) [
        | inl g ↦ absurd (ground (arith, h, e, f, g))
        | inr g ↦ (
          ground (arith, h, e, f, g, has-append s.applied m.version m.version),
          λ n k. ground (arith, h, e, f, g, k, has-append s.applied m.version n),
        )
      ]
    ]
  ]

  apply_each-keeps :
      (vs : List ℕ) (ms : List Migration) (s : Schema D) (n : ℕ)
      → ((k : ℕ) → has vs k ≡ true → has s.applied k ≡ true)
      → has s.applied n ≡ true
      → has (apply_each batch vs ms s).1.applied n ≡ true
  unfolding apply_each
  apply_each-keeps vs [] s n read h = h
  apply_each-keeps vs (m ∷ ms) s n read h = elim (Call-cases (apply_migration batch vs m s)) [
    | inl e ↦ rw (e, apply_each) h
    | inr (t, e) ↦
        let (_, keeps) = apply_migration-has vs m s t (read m.version) e in
        rw (e, apply_each) (apply_each-keeps vs ms t n (λ k g. keeps k (read k g)) (keeps n h))
  ]

  stop :
      (vs : List ℕ) (m : Migration) (ms : List Migration) (s : Schema D)
      → apply_migration batch vs m s ≡ throws
      → apply_each batch vs (m ∷ ms) s ≡ (false, s)
  unfolding apply_each
  stop vs m ms s e = rw (e, apply_each) refl

  step :
      (vs : List ℕ) (m : Migration) (ms : List Migration) (s t : Schema D)
      → apply_migration batch vs m s ≡ returns t
      → apply_each batch vs (m ∷ ms) s ≡ apply_each batch vs ms t
  unfolding apply_each
  step vs m ms s t e = rw (e, apply_each) refl

  apply_each-AllApplied :
      (vs : List ℕ) (ms : List Migration) (s : Schema D)
      → ((k : ℕ) → has vs k ≡ true → has s.applied k ≡ true)
      → (apply_each batch vs ms s).0 ≡ true
      → AllApplied (apply_each batch vs ms s).1 ms
  apply_each-AllApplied vs [] s read h = tt
  apply_each-AllApplied vs (m ∷ ms) s read h = elim (Call-cases (apply_migration batch vs m s)) [
    | inl e ↦ absurd (ground (arith, stop vs m ms s e, h))
    | inr (t, e) ↦
        let (now, keeps) = apply_migration-has vs m s t (read m.version) e in
        move (apply_each batch vs (m ∷ ms) s).1 (apply_each batch vs ms t).1 (m ∷ ms)
          (ap (λ p. p.1) (step vs m ms s t e))
          (
            apply_each-keeps vs ms t m.version (λ k g. keeps k (read k g)) now,
            apply_each-AllApplied vs ms t (λ k g. keeps k (read k g))
                (rw (step vs m ms s t e) at h),
          )
  ]

  apply_each-idle :
      (ms : List Migration) (s : Schema D)
      → AllApplied s ms
      → apply_each batch s.applied ms s ≡ (true, s)
  unfolding apply_each apply_migration
  apply_each-idle [] s h = refl
  apply_each-idle (m ∷ ms) s h = rw (h.0, apply_each, apply_migration) (apply_each-idle ms s h.1)

-- Where the migrations end without a throw, every one of them is applied, and applying them again
-- ends too, runs no statement and leaves the database as it is.
pub migrations_once :
    {D : Type 0} (batch : List String → D → Call D) (ms : List Migration) (s : Schema D)
    → (apply_migrations batch ms s).0 ≡ true
    → AllApplied (apply_migrations batch ms s).1 ms
      × (apply_migrations batch ms (apply_migrations batch ms s).1
          ≡ (true, (apply_migrations batch ms s).1))
unfolding apply_migrations
migrations_once batch ms s h =
    let all = apply_each-AllApplied batch s.applied ms s (λ k g. g) h in
    (all, apply_each-idle batch ms (apply_each batch s.applied ms s).1 all)
