-- ===== src/Client/Genuine.antt =====
-- What a seeker reports: the expressions that it tests are those that the server sent, and a reported
-- match is one.
use mathlib.Core.List.{Memᴰ}
use vanitykeygen.Common.{
  true, none, List, [], ◌∷◌, map, ◌≡◌, refl, sym, ap, ◌∙◌, arith, Bool-cases, Option-cases, inl,
  inr, All, eq_iff,
}
use vanitykeygen.Vkg.{CompiledPattern}
use vanitykeygen.Runtime.{Env}
use vanitykeygen.Regexp.{compile}
use vanitykeygen.Client.Seeker.{Compiled, patterns_match, recompile, sync}

-- An expression that was compiled from its pattern.
abbrev pub IsCompiled : Compiled → Type 0
IsCompiled c = c.re.source ≡ c.pattern

-- what regexp.Compile makes of a served pattern, with its scope
abbrev pub compiled_of : CompiledPattern → Compiled
compiled_of p = record {
  pattern = p.pattern;
  re = record { source = p.pattern };
  match_fingerprint = p.match_fingerprint;
  match_authorized_key = p.match_authorized_key;
}

module _ (env : Env) where
  abbrev pub Compiles : CompiledPattern → Type 0
  Compiles p = env.syntax_error p.pattern ≡ none

  pub recompile-fine :
      (ps : List CompiledPattern) → All Compiles ps → recompile env ps ≡ map compiled_of ps
  unfolding recompile compile
  recompile-fine [] fine = refl
  recompile-fine (p ∷ ps) (fine, rest) =
      rw (recompile, compile, fine) (ap (λ r. compiled_of p ∷ r) (recompile-fine ps rest))

same_compiled :
    (c : Compiled) (p : CompiledPattern)
    → IsCompiled c
    → c.pattern ≡ p.pattern
    → c.match_fingerprint ≡ p.match_fingerprint
    → c.match_authorized_key ≡ p.match_authorized_key
    → c ≡ compiled_of p
same_compiled c p re e f g i = record {
  pattern = e i;
  re = record { source = (re ∙ e) i };
  match_fingerprint = f i;
  match_authorized_key = g i;
}

patterns_match_sound :
    (cs : List Compiled) (ps : List CompiledPattern)
    → All IsCompiled cs
    → patterns_match cs ps ≡ true
    → cs ≡ map compiled_of ps
unfolding patterns_match
patterns_match_sound [] [] all h = refl
patterns_match_sound [] (p ∷ ps) all h = absurd (ground arith)
patterns_match_sound (c ∷ cs) [] all h = absurd (ground arith)
patterns_match_sound (c ∷ cs) (p ∷ ps) (re, all) h =
    let rest = patterns_match_sound cs ps all (ground arith) in
    let same =
      same_compiled c p re (ground (arith, eq_iff c.pattern p.pattern)) (ground arith)
        (ground arith) in
    cc

module _ (env : Env) where
  -- If all the served patterns compile, then whatever expressions a seeker holds, each compiled
  -- from its pattern, it goes on with exactly the served patterns and their scopes, in their order.
  pub sync-eq-served :
      (ps : List CompiledPattern) (cs : List Compiled)
      → All (Compiles env) ps
      → All IsCompiled cs
      → sync env ps cs ≡ map compiled_of ps
  unfolding sync
  sync-eq-served ps cs fine all = elim (Bool-cases (patterns_match cs ps)) [
    | inl same ↦ rw (sync, same) (patterns_match_sound cs ps all same)
    | inr new ↦ rw (sync, new) (recompile-fine env ps fine)
  ]

-- An expression that one of the patterns compiled to.
abbrev pub Served : List CompiledPattern → Compiled → Type 0
Served ps c = (p : CompiledPattern) × Memᴰ p ps × (c ≡ compiled_of p)

Served-map :
    (ps all : List CompiledPattern)
    → ((p : CompiledPattern) → Memᴰ p ps → Memᴰ p all)
    → All (Served all) (map compiled_of ps)
Served-map [] all sub = tt
Served-map (p ∷ ps) all sub =
    ((p, sub p (Memᴰ.head refl), refl), Served-map ps all (λ q m. sub q (Memᴰ.tail m)))

module _ (env : Env) where
  recompile-Served :
      (ps all : List CompiledPattern)
      → ((p : CompiledPattern) → Memᴰ p ps → Memᴰ p all)
      → All (Served all) (recompile env ps)
  unfolding recompile compile
  recompile-Served [] all sub = tt
  recompile-Served (p ∷ ps) all sub =
      let rest = recompile-Served ps all (λ q m. sub q (Memᴰ.tail m)) in
      elim (Option-cases (env.syntax_error p.pattern)) [
        | inl fine ↦ rw (recompile, compile, fine) ((p, sub p (Memᴰ.head refl), refl), rest)
        | inr (e, bad) ↦ rw (recompile, compile, bad) rest
      ]

  pub sync-Served :
      (ps : List CompiledPattern) (cs : List Compiled)
      → All IsCompiled cs
      → All (Served ps) (sync env ps cs)
  unfolding sync
  sync-Served ps cs all = elim (Bool-cases (patterns_match cs ps)) [
    | inl same ↦ rw (sync, same, patterns_match_sound cs ps all same) (Served-map ps ps (λ p m. m))
    | inr new ↦ rw (sync, new) (recompile-Served ps ps (λ p m. m))
  ]

pub Served-IsCompiled :
    (ps : List CompiledPattern) (cs : List Compiled) → All (Served ps) cs → All IsCompiled cs
Served-IsCompiled ps [] all = tt
Served-IsCompiled ps (c ∷ cs) ((p, m, e), all) =
    (ap (λ c. c.re.source) e ∙ sym (ap (λ c. c.pattern) e), Served-IsCompiled ps cs all)
