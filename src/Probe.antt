-- ===== src/Probe.antt =====
-- internal/omny/probe.go: `asked`, `ping`, `shoot` and `probe`, and config.go `join`, `dress`. The network, the
-- canonical spelling of header names and Go's quoting of a string are arguments.
pub mod Asked
pub mod Shots
use omny.Base.{
  ℕ, Bool, true, false, ◌&&◌, not, List, [], ◌∷◌, ◌++◌, Option, none, some, Bytes, bytes, leb,
  lookup, insert, if◌then◌else◌, ◌==◌,
}
use omny.Config.{Provider, Config, Slot, slots, budget}
use omny.Loader.{is_empty}
use omny.Route.{Target, route, slash}

-- `strings.TrimSuffix(s, "/")`.
unfoldable pub trim_slash : Bytes → Bytes
trim_slash [] = []
trim_slash (b ∷ []) = if b == slash then [] else b ∷ []
trim_slash (b ∷ c ∷ bs) = b ∷ trim_slash (c ∷ bs)

-- `Provider.join`, `endpoint` and `catalog`.
unfoldable pub join : Provider → Bytes → Bytes
join p path = trim_slash p.url ++ path

unfoldable pub endpoint : Provider → Bytes
endpoint p = join p (bytes "/chat/completions")

unfoldable pub catalog : Provider → Bytes
catalog p = join p (bytes "/models")

-- `Header.Set` of each header in turn.
unfoldable pub set_all :
    (Bytes → Bytes) → List (Bytes × Bytes) → List (Bytes × Bytes) → List (Bytes × Bytes)
set_all canonical [] h = h
set_all canonical ((k, v) ∷ more) h = set_all canonical more (insert (canonical k) v h)

-- `Provider.dress`, of the headers that are set so far.
unfoldable pub dress :
    (Bytes → Bytes) → Provider → List (Bytes × Bytes) → Bytes → List (Bytes × Bytes)
dress canonical p h key = set_all canonical p.headers (
    if is_empty key
    then h
    else insert (canonical (bytes "Authorization")) (bytes "Bearer " ++ key) h)

abbrev pub or_blank : Option Bytes → Bytes
or_blank none = []
or_blank (some x) = x

-- The model of the map of `asked` at a provider, empty where it has none.
unfoldable pub model_of : Bytes → List (Bytes × Bytes) → Bytes
model_of prov m = or_blank (lookup prov m)

unfoldable pub ask_targets : List Target → List (Bytes × Bytes) → List (Bytes × Bytes)
ask_targets [] m = m
ask_targets (t ∷ ts) m =
    ask_targets ts (if is_empty (model_of t.prov m) then insert t.prov t.model m else m)

unfoldable pub ask_aliases :
    Config → List (Bytes × List Bytes) → List (Bytes × Bytes) → List (Bytes × Bytes)
ask_aliases c [] m = m
ask_aliases c ((a, es) ∷ more) m = ask_aliases c more (ask_targets (route c a) m)

-- `asked`, of the aliases in the order of their sorted names.
unfoldable pub asked : Config → List (Bytes × Bytes)
asked c = ask_aliases c c.aliases []

pub data Depth : Type 0 where
  shallow deep : Depth

-- The request of `ping`: its address, body and headers.
pub record Ping : Type 0 where
  pub post : Bool
  pub url : Bytes
  pub body : Bytes
  pub headers : List (Bytes × Bytes)

-- What comes of a request: it cannot be built, the round trip fails with the context expired or not,
-- or a response has a status.
pub data Dialed : Type 0 where
  unbuilt : Dialed
  broken : Bool → Dialed
  responded : ℕ → Dialed

-- `shot`.
pub data Shot : Type 0 where
  unprobeable timeout unreachable : Shot
  rejected fine : ℕ → Shot

module _ (canonical quote : Bytes → Bytes) (dial : ℕ → Ping → Dialed) where
  unfoldable pub spark : Bytes → Bytes
  spark model =
      bytes "{\"model\":"
      ++ quote model
      ++ bytes ",\"max_tokens\":1,\"messages\":[{\"role\":\"user\",\"content\":\"hi\"}]}"

  unfoldable pub ping : Provider → Depth → Bytes → Ping
  ping p shallow model = record { post = false; url = catalog p; body = []; headers = [] }
  ping p deep model = record {
    post = true;
    url = endpoint p;
    body = spark model;
    headers = insert (canonical (bytes "Content-Type")) (bytes "application/json") [];
  }

  unfoldable pub said : Dialed → Shot
  said unbuilt = unreachable
  said (broken expired) = if expired then timeout else unreachable
  said (responded code) = if leb 300 code then rejected code else fine code

  unfoldable pub patience_of : Provider → Depth → ℕ → ℕ
  patience_of p shallow wait = wait
  patience_of p deep wait = budget p wait

  -- `shoot`, of the server's patience.
  unfoldable pub shoot : ℕ → Provider → Bytes → Depth → Bytes → Shot
  shoot patience p model depth key =
      let req = ping p depth model in
      let sent = record req { headers = dress canonical p req.headers key } in
      let got = said (dial (patience_of p depth patience) sent) in
      elim depth [ shallow ↦ got | deep ↦ if is_empty model then unprobeable else got ]

  -- The goroutines of `probe`, each with the id that it writes to and what it writes there.
  unfoldable pub slot_jobs : ℕ → Provider → Bytes → Depth → List Slot → List (Bytes × Shot)
  slot_jobs patience p model depth [] = []
  slot_jobs patience p model depth (sl ∷ more) =
      (sl.id, shoot patience p model depth sl.val) ∷ slot_jobs patience p model depth more

  unfoldable pub jobs :
      (Bytes → Bytes)
      → ℕ
      → List (Bytes × Bytes)
      → Depth
      → List (Bytes × Provider)
      → List (Bytes × Shot)
  jobs fp patience ask depth [] = []
  jobs fp patience ask depth ((name, p) ∷ more) =
      slot_jobs patience p (model_of name ask) depth (slots fp p name)
      ++ jobs fp patience ask depth more

-- The writes to the map of `probe`, in the order in which the goroutines come to them.
unfoldable pub collect : List (Bytes × Shot) → List (Bytes × Shot) → List (Bytes × Shot)
collect [] out = out
collect ((id, shot) ∷ more) out = collect more (insert id shot out)
