-- ===== src/Client/Seeker.antt =====
-- pkg/client/main.go: one seeker, and the statuses that it sends to the client's main loop.
use vanitykeygen.Common.{
  ℕ, ◌+◌, ◌%◌, ◌^◌, String, Bool, true, false, not, ◌&&◌, ◌||◌, List, [], ◌∷◌, ◌++◌, ◌==◌, length,
  if◌then◌else◌,
}
use vanitykeygen.Vkg.{Time, CompiledPattern}
use vanitykeygen.Runtime.{Env, Outcome, ok, err}
use vanitykeygen.Regexp.{Regexp, compile}
use vanitykeygen.Keygen.{KeyResult, empty_key}
use vanitykeygen.Text.{append}

-- compiledPattern
pub record Compiled : Type 0 where
  pub pattern : String
  pub re : Regexp
  pub match_fingerprint : Bool
  pub match_authorized_key : Bool

-- seekerStatus
pub record SeekerStatus : Type 0 where
  pub timestamp : Time
  pub sid : ℕ
  pub key_count : ℕ
  pub match_string : String
  pub matched_authorized_key : Bool
  pub matched_fingerprint : Bool
  pub key : KeyResult

-- What one turn of a seeker's loop meets: whether the context is done at its start, the patterns that
-- the client holds, what keygen.Generate returns, whether the ticker has fired, and for a status after
-- n others the clock and whether the channel takes it before the context is done.
pub record Turn : Type 0 where
  pub cancelled : Bool
  pub patterns : List CompiledPattern
  pub generated : Outcome String KeyResult
  pub ticked : Bool
  pub now : ℕ → Time
  pub taken : ℕ → Bool

-- A seeker: its variables, whether it has not returned, what it has sent so far, and how often it has
-- added 1 to the client's keyCount.
pub record Seeker : Type 0 where
  pub compiled : List Compiled
  pub key_count : ℕ
  pub running : Bool
  pub sent : List SeekerStatus
  pub counted : ℕ

abbrev pub new_seeker : Seeker
new_seeker = record { compiled = []; key_count = 0; running = true; sent = []; counted = 0 }

-- `int` arithmetic on the bit patterns
abbrev pub wrap : ℕ → ℕ
wrap n = n % 2 ^ 64

abbrev same_flag : Bool → Bool → Bool
same_flag true b = b
same_flag false b = not b

-- patternsMatch
unfoldable pub patterns_match : List Compiled → List CompiledPattern → Bool
patterns_match [] [] = true
patterns_match [] (p ∷ ps) = false
patterns_match (c ∷ cs) [] = false
patterns_match (c ∷ cs) (p ∷ ps) =
    c.pattern == p.pattern
    && same_flag c.match_fingerprint p.match_fingerprint
    && same_flag c.match_authorized_key p.match_authorized_key
    && patterns_match cs ps

module _ (env : Env) where
  abbrev keep : CompiledPattern → Outcome String Regexp → List Compiled → List Compiled
  keep p (err e) rest = rest
  keep p (ok re) rest =
      record {
        pattern = p.pattern;
        re = re;
        match_fingerprint = p.match_fingerprint;
        match_authorized_key = p.match_authorized_key;
      }
      ∷ rest

  -- the loop that compiles the patterns, skipping those that do not compile
  unfoldable pub recompile : List CompiledPattern → List Compiled
  recompile [] = []
  recompile (p ∷ ps) = keep p (compile env p.pattern) (recompile ps)

  -- `if !patternsMatch(compiled, patterns) { … }`
  unfoldable pub sync : List CompiledPattern → List Compiled → List Compiled
  sync patterns compiled =
      let fresh = recompile patterns in if patterns_match compiled patterns then compiled else fresh

  -- the two tests of a key
  unfoldable pub hits_fingerprint : Compiled → KeyResult → Bool
  hits_fingerprint c k = c.match_fingerprint && env.re_match c.re.source k.fingerprint

  unfoldable pub hits_authorized_key : Compiled → KeyResult → Bool
  hits_authorized_key c k = c.match_authorized_key && env.re_match c.re.source k.authorized_key

  -- matchString
  unfoldable pub match_string : Compiled → KeyResult → String
  unfolding hits_fingerprint hits_authorized_key
  match_string c k =
      append (if hits_fingerprint c k then env.re_find c.re.source k.fingerprint else "")
        (if hits_authorized_key c k then env.re_find c.re.source k.authorized_key else "")

  -- the status of a match
  unfoldable pub match_status : ℕ → Turn → KeyResult → Compiled → Seeker → SeekerStatus
  unfolding match_string hits_fingerprint hits_authorized_key
  match_status sid turn k c st = record {
    timestamp = turn.now (length st.sent);
    sid = sid;
    key_count = st.key_count;
    match_string = match_string c k;
    matched_authorized_key = hits_authorized_key c k;
    matched_fingerprint = hits_fingerprint c k;
    key = k;
  }

-- the status of a tick
unfoldable pub tick_status : ℕ → Turn → Seeker → SeekerStatus
tick_status sid turn st = record {
  timestamp = turn.now (length st.sent);
  sid = sid;
  key_count = st.key_count;
  match_string = "";
  matched_authorized_key = false;
  matched_fingerprint = false;
  key = empty_key;
}

-- `select { case statusUpdates <- s: case <-ctx.Done(): return }; keyCount = 0`
unfoldable pub send : Turn → SeekerStatus → Seeker → Seeker
send turn s st =
    if turn.taken (length st.sent)
    then record st { sent = st.sent ++ s ∷ []; key_count = 0 }
    else record st { running = false }

module _ (env : Env) (sid : ℕ) (turn : Turn) where
  -- the body of the loop over the compiled patterns; nothing after the seeker has returned
  unfoldable pub test_key : KeyResult → Compiled → Seeker → Seeker
  unfolding send match_status hits_fingerprint hits_authorized_key
  test_key k c st =
      if st.running && (hits_fingerprint env c k || hits_authorized_key env c k)
      then send turn (match_status env sid turn k c st) st
      else st

  unfoldable pub test_keys : KeyResult → List Compiled → Seeker → Seeker
  unfolding test_key
  test_keys k [] st = st
  test_keys k (c ∷ cs) st = test_keys k cs (test_key k c st)

  -- c.keyCount.Add(1); keyCount++
  unfoldable pub count_key : Seeker → Seeker
  count_key st = record st { key_count = wrap (st.key_count + 1); counted = st.counted + 1 }

  -- the check of the ticker
  unfoldable pub tick : Seeker → Seeker
  unfolding send tick_status
  tick st = if st.running && turn.ticked then send turn (tick_status sid turn st) st else st

  -- what follows on keygen.Generate
  unfoldable pub tried : Outcome String KeyResult → Seeker → Seeker
  unfolding count_key test_keys tick
  tried (err e) st = st
  tried (ok k) st = tick (test_keys k st.compiled (count_key st))

  -- the rest of the turn, from `if len(compiled) == 0`
  unfoldable pub search_compiled : Seeker → Seeker
  unfolding tried
  search_compiled st = elim st.compiled [ [] ↦ st | c ∷ cs ↦ tried turn.generated st ]

  -- one turn of the loop of seeker
  unfoldable pub seek : Seeker → Seeker
  unfolding search_compiled sync
  seek st = if turn.cancelled then record st { running = false } else elim turn.patterns [
    | [] ↦ st
    | p ∷ ps ↦ search_compiled (record st { compiled = sync env (p ∷ ps) st.compiled })
  ]

-- the loop of seeker, over the turns that it meets until it returns
unfoldable pub seeker : Env → ℕ → List Turn → Seeker → Seeker
unfolding seek
seeker env sid [] st = st
seeker env sid (turn ∷ turns) st =
    let next = seek env sid turn st in
    let rest = seeker env sid turns next in if st.running then rest else st
