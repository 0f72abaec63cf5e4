-- ===== src/Server/Requests/Validity.antt =====
-- No sequence of requests stores a target that the checks refuse.
use vanitykeygen.Common.{List}
use vanitykeygen.Runtime.{Env}
use vanitykeygen.Server.{Server}
use vanitykeygen.Server.Compile.{Config}
use vanitykeygen.Server.Stored.{AllValid}
use vanitykeygen.Server.Requests.{Happening, happen_all}
use vanitykeygen.Server.Requests.Kept.{happen_all-Keeps}
use vanitykeygen.Server.Requests.Methods.{AllValid-MethodsKeep}

abbrev pub ServesValid : Env → Server → Type 0
ServesValid env s = AllValid env s.store

-- From a server whose stored targets all read back as ones that the checks of a target accept,
-- every sequence of requests to the API's routes, reaper ticks and turns of event streams, each run
-- to its end, whatever fails in them, leaves such a server.
pub happen_all-ServesValid :
    (env : Env) (config : Config) (hs : List Happening) (s : Server)
    → ServesValid env s
    → ServesValid env (happen_all env config hs s)
happen_all-ServesValid env = happen_all-Keeps env (AllValid env) (AllValid-MethodsKeep env)
