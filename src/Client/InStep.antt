-- ===== src/Client/InStep.antt =====
-- When a seeker stops compiling: patternsMatch after the loop that compiles.
use vanitykeygen.Common.{
  suc, ◌≤◌, true, List, [], ◌∷◌, length, map, ◌≡◌, ◌↔◌, refl, ap, arith, Option-cases, inl, inr,
  All, eq_refl,
}
use vanitykeygen.Vkg.{CompiledPattern}
use vanitykeygen.Runtime.{Env}
use vanitykeygen.Regexp.{compile}
use vanitykeygen.Client.Seeker.{Compiled, patterns_match, recompile}
use vanitykeygen.Client.Genuine.{compiled_of, Compiles, recompile-fine}

patterns_match-length :
    (cs : List Compiled) (ps : List CompiledPattern)
    → patterns_match cs ps ≡ true
    → length cs ≡ length ps
unfolding patterns_match
patterns_match-length [] [] h = refl
patterns_match-length [] (p ∷ ps) h = absurd (ground arith)
patterns_match-length (c ∷ cs) [] h = absurd (ground arith)
patterns_match-length (c ∷ cs) (p ∷ ps) h = ap suc (patterns_match-length cs ps (ground arith))

patterns_match-compiled_of :
    (ps : List CompiledPattern) → patterns_match (map compiled_of ps) ps ≡ true
unfolding patterns_match
patterns_match-compiled_of [] = refl
patterns_match-compiled_of (p ∷ ps) =
    ground (arith, eq_refl p.pattern, patterns_match-compiled_of ps)

module _ (env : Env) where
  length-recompile : (ps : List CompiledPattern) → length (recompile env ps) ≤ length ps
  unfolding recompile compile
  length-recompile [] = omega arith
  length-recompile (p ∷ ps) = elim (Option-cases (env.syntax_error p.pattern)) [
    | inl fine ↦ rw (recompile, compile, fine) (omega (arith, length-recompile ps))
    | inr (e, bad) ↦ rw (recompile, compile, bad) (omega (arith, length-recompile ps))
  ]

  full-Compiles :
      (ps : List CompiledPattern) → length ps ≤ length (recompile env ps) → All (Compiles env) ps
  unfolding recompile compile
  full-Compiles [] h = tt
  full-Compiles (p ∷ ps) h = elim (Option-cases (env.syntax_error p.pattern)) [
    | inl fine ↦ (fine, full-Compiles ps (omega (arith, rw (recompile, compile, fine) at h)))
    | inr (e, bad) ↦ absurd (omega (arith, rw (recompile, compile, bad) at h, length-recompile ps))
  ]

  -- Right after the loop that compiles the served patterns, patternsMatch holds exactly if every
  -- one of them compiles.
  pub patterns_match-recompile :
      (ps : List CompiledPattern)
      → (patterns_match (recompile env ps) ps ≡ true) ↔ All (Compiles env) ps
  patterns_match-recompile ps = (
    λ h. full-Compiles ps (omega (arith, patterns_match-length (recompile env ps) ps h)),
    λ fine. rw (recompile-fine env ps fine) (patterns_match-compiled_of ps),
  )
