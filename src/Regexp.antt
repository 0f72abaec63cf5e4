-- ===== src/Regexp.antt =====
-- Go's regexp as the server and the client use it: a compiled expression is known by its source text,
-- and what it matches is the environment's.
use vanitykeygen.Common.{String, none, some}
use vanitykeygen.Runtime.{Env, Outcome, ok, err}

-- *regexp.Regexp
pub record Regexp : Type 0 where
  pub source : String

-- regexp.Compile
unfoldable pub compile : Env → String → Outcome String Regexp
compile env p = elim (env.syntax_error p) [ none ↦ ok (record { source = p }) | some e ↦ err e ]
