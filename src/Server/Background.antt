-- ===== src/Server/Background.antt =====
-- pkg/server/server.go: seedDefaultTarget, and one tick of clientReaper.
use vanitykeygen.Common.{◌*◌, String, true, List, [], ◌∷◌, ◌==◌, if◌then◌else◌}
use vanitykeygen.Vkg.{Target, Time, zero_time}
use vanitykeygen.Runtime.{Env, Outcome, ok, err, Action, pure, ◌>>=◌}
use vanitykeygen.Text.{append}
use vanitykeygen.Store.{Store, nanos}
use vanitykeygen.Store.Targets.{create_target, list_targets}
use vanitykeygen.Store.Clients.{mark_offline_clients, delete_offline_clients}

abbrev pub default_words : List String
default_words =
    "nugget" ∷ "slacker" ∷ "wheelsdown" ∷ "hollowoak" ∷ "ferrari" ∷ "porsche" ∷ "gt3rs"
    ∷ "portofino" ∷ "longhorn" ∷ "miata" ∷ "equiraptor" ∷ []

abbrev pub seeded : String → String → String → Target
seeded type pattern label = record {
  id = "";
  type = type;
  pattern = pattern;
  label = label;
  active = true;
  case_modes = [];
  match_scope = "";
  created_at = zero_time;
}

abbrev pub wrap : {A : Type 0} → String → Outcome String A × Store → Outcome String A × Store
wrap context (ok a, s) = (ok a, s)
wrap context (err e, s) = (err (append context (append ": " e)), s)

-- 90 s and 5 min
abbrev pub offline_after : Time
offline_after = 90 * nanos

abbrev pub deleted_after : Time
deleted_after = 300 * nanos

module _ (env : Env) where
  -- seedRegexTarget
  unfoldable pub seed_regex_target : String → String → Action Store String (Unit {0})
  seed_regex_target pattern label = do
    t ← (λ s. wrap "seed regex target" (create_target env (seeded "regex" pattern label) s))
    pure tt

  -- the loop over the default words
  unfoldable pub seed_words : List String → Action Store String (Unit {0})
  seed_words [] = pure tt
  seed_words (w ∷ ws) = do
    t ← (λ s.
        wrap (append "seed word target " (env.quote w)) (create_target env (seeded "word" w w) s))
    seed_words ws

  abbrev pub seed_empty : String → String → List Target → Action Store String (Unit {0})
  seed_empty default_target env_target (t ∷ ts) = pure tt
  seed_empty default_target env_target [] =
      if default_target == ""
      then (if env_target == ""
          then seed_words default_words
          else seed_regex_target env_target "Default")
      else seed_regex_target default_target "Default"

  -- seedDefaultTarget, with the flag -t and the variable VKG_TARGET
  unfoldable pub seed_default_target : String → String → Action Store String (Unit {0})
  unfolding seed_words seed_regex_target
  seed_default_target default_target env_target = do
    ts ← list_targets env
    seed_empty default_target env_target ts

  -- one tick of clientReaper; an error is logged and the tick goes on
  unfoldable pub reap : Store → Store
  reap s =
      let (_, marked) = mark_offline_clients env offline_after s in
      let (_, deleted) = delete_offline_clients env deleted_after marked in deleted
