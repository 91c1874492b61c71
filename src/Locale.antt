-- ===== src/Locale.antt =====
-- The parts of the host's string functions that depend on its locale tables: a parameter of the
-- operations that use them (backend/src/memory-store.ts).
use onlykas.Prelude.{String, Bool}

-- `a.toLocaleLowerCase()`, `a.includes(b)`, and `a.localeCompare(b) <= 0`.
pub record Locale : Type 0 where
  pub lower : String → String
  pub includes : String → String → Bool
  pub collate : String → String → Bool
