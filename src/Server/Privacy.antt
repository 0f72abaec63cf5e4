-- ===== src/Server/Privacy.antt =====
-- What of a match leaves the server by the event streams.
use vanitykeygen.Common.{String, some, List, [], ◌∷◌, ◌≡◌, refl, sym, ap, ◌∙◌, arith}
use vanitykeygen.Vkg.{Target, Match, summary}
use vanitykeygen.Runtime.{Env, Outcome, ok, err, Action, pure, continue, ◌>>=◌, ◌>>◌}
use vanitykeygen.Table.{insert}
use vanitykeygen.Store.{Store, call, id_or_new, time_or_now}
use vanitykeygen.Store.Targets.{list_active_targets}
use vanitykeygen.Store.Matches.{record_match, match_row, insert_match}
use vanitykeygen.Hub.{Hub}
use vanitykeygen.Server.{Server, serve, internal, failing, broadcast}
use vanitykeygen.Server.Attribution.{Cache, attribute, target_hits, any_mode_hits, word_hits}
use vanitykeygen.Server.Compile.{modes_of}
use vanitykeygen.Server.MatchRoutes.{
  handle_post_match, attribute_match, attributing, attributed, received, announce,
}

-- The same but for the key material that is not public.
abbrev pub redact : Match → Match
redact m = record m {
  key = record (m.key) { private_key = []; public_key = []; encoded_key = []; private_string = "" };
}

-- The summary has no more than the public part of a match.
pub summary-redact : (m : Match) → summary (redact m) ≡ summary m
unfolding summary
summary-redact m = refl

module _ (env : Env) where
  any_mode_hits-redact :
      (m : Match) (t : Target) (modes : List String)
      → any_mode_hits env (redact m) t modes ≡ any_mode_hits env m t modes
  unfolding any_mode_hits word_hits
  any_mode_hits-redact m t [] = refl
  any_mode_hits-redact m t (mode ∷ modes) = ground (arith, any_mode_hits-redact m t modes)

  target_hits-redact :
      (m : Match) (t : Target) (cache : Cache)
      → target_hits env (redact m) t cache ≡ target_hits env m t cache
  unfolding target_hits
  target_hits-redact m t cache = rw (any_mode_hits-redact m t (modes_of t), target_hits)

  attribute-redact :
      (m : Match) (ts : List Target) (cache : Cache)
      → attribute env (redact m) ts cache ≡ attribute env m ts cache
  unfolding attribute
  attribute-redact m [] cache = refl
  attribute-redact m (t ∷ ts) cache =
      rw (
        target_hits-redact m t cache,
        attribute-redact m ts (target_hits env m t cache).1,
        attribute,
      )

  attributing-redact :
      (m : Match) (o : Outcome String (List Target)) (store : Store) (s : Server)
      → attributing env (redact m) (o, store) s ≡ attributing env m (o, store) s
  attributing-redact m (err e) store s = refl
  attributing-redact m (ok ts) store s = rw (attribute-redact m ts s.re_cache, attributing)

  attribute_match-redact :
      (m : Match) (s : Server) → attribute_match env (redact m) s ≡ attribute_match env m s
  unfolding attribute_match
  attribute_match-redact m s =
      ap (λ (r : String × Server). (ok r.0, r.1))
        (attributing-redact m (list_active_targets env s.store).0
          (list_active_targets env s.store).1 s)

abbrev map_ok : {E A B : Type 0} → (A → B) → Outcome E A → Outcome E B
map_ok f (ok a) = ok (f a)
map_ok f (err e) = err e

bind-map_ok :
    {S E A B C : Type 0} (f : B → C) (m : Action S E A) (k : A → Action S E B)
    (k' : A → Action S E C) (s : S)
    → ((a : A) (t : S) → (k' a t).0 ≡ map_ok f (k a t).0)
    → ((m >>= k') s).0 ≡ map_ok f ((m >>= k) s).0
bind-map_ok {S} {E} {A} f m k k' s same = go (m s).0 (m s).1
  where
    go : (o : Outcome E A) (t : S) → (continue o k' t).0 ≡ map_ok f (continue o k t).0
    go (ok a) t = same a t
    go (err e) t = refl

write_match-redact :
    (m : Match) (s : Store)
    → ((insert_match (match_row (redact m)) >> pure {E = String} (redact m)) s).0
      ≡ map_ok redact ((insert_match (match_row m) >> pure m) s).0
unfolding insert_match match_row insert
write_match-redact m s = ground arith

record_match-redact :
    (env : Env) (m : Match) (s : Store)
    → (record_match env (redact m) s).0 ≡ map_ok redact (record_match env m s).0
unfolding record_match
record_match-redact env m s = bind-map_ok redact (id_or_new env m.id) _ _ s λ id s1.
    bind-map_ok redact (time_or_now env m.timestamp) _ _ s1 λ t s2.
      bind-map_ok redact (call env) _ _ s2
        λ u s3. write_match-redact (record m { id = id; timestamp = t }) s3

-- The hub after handlePostMatch has recorded a match, or has failed to.
announced : Env → Outcome String Match → Store → Server → Hub
announced env o store s =
    (serve ((λ t. (failing o internal, t)) >>= announce env) (record s { store = store })).1.hub

announced-redact :
    (env : Env) (o : Outcome String Match) (st st' : Store) (s : Server)
    → announced env (map_ok redact o) st s ≡ announced env o st' s
unfolding announced broadcast summary
announced-redact env (err e) st st' s = refl
announced-redact env (ok m) st st' s = ground arith

-- The same, from the attribution on.
hub_after : Env → Match → String × Server → Hub
hub_after env m (tid, s) =
    let (o, store) = record_match env (attributed tid m) s.store in announced env o store s

attributed-redact :
    (tid : String) (m : Match) → attributed tid (redact m) ≡ redact (attributed tid m)
attributed-redact tid m = ground arith

hub_after-redact :
    (env : Env) (m : Match) (r : String × Server) → hub_after env (redact m) r ≡ hub_after env m r
unfolding hub_after
hub_after-redact env m (tid, s) =
    rw (attributed-redact tid m, record_match-redact env (attributed tid m) s.store)
      (announced-redact env (record_match env (attributed tid m) s.store).0 _ _ s)

hub-handle_post_match :
    (env : Env) (m : Match) (s : Server)
    → (serve (handle_post_match env (some m)) s).1.hub
      ≡ hub_after env
          (received m)
          (attributing env (received m) (list_active_targets env s.store) s)
unfolding handle_post_match attribute_match hub_after announced
hub-handle_post_match env m s = refl

-- What POST /api/matches puts on the event streams does not depend on the private key, the public
-- key bytes, the encoded key or the private string that the client sent: for every server state,
-- and whatever fails, the hub afterwards equals the one that the same match without them leaves.
pub hub-handle_post_match-redact :
    (env : Env) (m : Match) (s : Server)
    → (serve (handle_post_match env (some m)) s).1.hub
      ≡ (serve (handle_post_match env (some (redact m))) s).1.hub
hub-handle_post_match-redact env m s =
    let listed = list_active_targets env s.store in
    hub-handle_post_match env m s
    ∙ sym (
        hub-handle_post_match env (redact m) s
        ∙ ap (hub_after env (redact (received m)))
            (attributing-redact env (received m) listed.0 listed.1 s)
        ∙ hub_after-redact env (received m) (attributing env (received m) listed s))
