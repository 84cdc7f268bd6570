-- ===== src/Serve.antt =====
-- internal/omny/serve.go: `newServer`, `reload` and `models`, and the life of a server: requests and
-- attempts to reload, one after another. What `Load` reads of a file is an argument, as in Loader.
pub mod Living
pub mod Models
pub mod Editing
use omny.Base.{
  ℕ, Bool, true, false, List, [], ◌∷◌, ◌++◌, Option, none, some, Bytes, bytes_eq, ◌>>=◌,
  if◌then◌else◌, ltb, ◌==◌, ◌&&◌,
}
use omny.Config.{Config}
use omny.Pool.{Pool}
use omny.Pool.Reload.{adopt, new_pool}
use omny.Proxy.{Env, Waits, State}
use omny.Dispatch.{Answer, dispatch}
use omny.Loader.{load}

-- `server`, what a request and a reload share.
pub record Server : Type 0 where
  pub config : Config
  pub pool : Pool

-- `newServer`.
unfoldable pub new_server : (Bytes → Bytes) → ℕ → Config → Server
new_server fp now c = record { config = c; pool = new_pool fp now c }

-- The state of a request that has not asked anything.
unfoldable pub fresh : Pool → State
fresh p = record {
  pool = p;
  asked = 0;
  trace = record { tries = 0; prov = []; key = []; sent = []; ttft = 0 };
}

-- A reload of a file with these bytes, or a request for this model in this environment.
pub data Visit : Type 0 where
  reloads : Bytes → Visit
  asks : Env → Bool → Bytes → Visit

pub data Outcome : Type 0 where
  reloaded refused : Outcome
  answered : Answer → Outcome

module _ (fp : Bytes → Bytes) (split_host_port : Bytes → Option Bytes)
    (parse_url : Bytes → Option (Bytes × Bytes)) (blank : Bytes → Bool)
    (parse : Bytes → Option Config) where
  -- `reload`: false where it returns an error.
  unfoldable pub reload : Bytes → Server → Server × Bool
  reload b s = elim (load split_host_port parse_url blank parse b) [
    | none ↦ (s, false)
    | some c ↦ (record s { config = c; pool = adopt fp s.pool c }, true)
  ]

  module _ (waits : Waits) (pause : ℕ) where
    unfoldable pub visit : Visit → Server → Option (Outcome × Server)
    visit (reloads b) s = let (t, ok) = reload b s in some (if ok then reloaded else refused, t)
    visit (asks env stream name) s =
        dispatch env waits pause stream s.config name (fresh s.pool) >>= λ (a, st).
        some (answered a, record s { pool = st.pool })

    -- A panic of one of them is `none`.
    unfoldable pub live : List Visit → Server → Option (List Outcome × Server)
    live [] s = some ([], s)
    live (v ∷ vs) s = visit v s >>= λ (o, t). live vs t >>= λ (os, u). some (o ∷ os, u)

-- `slices.Sorted` of the ids that are collected in a map: each goes to its place, once.
unfoldable pub before : Bytes → Bytes → Bool
before [] [] = false
before [] (y ∷ ys) = true
before (x ∷ xs) [] = false
before (x ∷ xs) (y ∷ ys) = elim (ltb x y) [ true ↦ true | false ↦ x == y && before xs ys ]

unfoldable pub place_id : Bytes → List Bytes → List Bytes
place_id x [] = x ∷ []
place_id x (y ∷ ys) =
    let rest = place_id x ys in
    if bytes_eq x y then y ∷ ys else if before x y then x ∷ y ∷ ys else y ∷ rest

unfoldable pub place_ids : List Bytes → List Bytes → List Bytes
place_ids [] ids = ids
place_ids (x ∷ xs) ids = place_ids xs (place_id x ids)

-- `models`: the ids of its answer.
unfoldable pub models : List (Bytes × List Bytes) → List Bytes
models [] = []
models ((a, es) ∷ more) = place_ids (a ∷ es) (models more)
