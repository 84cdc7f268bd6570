-- ===== src/Examples/Running.antt =====
-- The theorems on requests to the handlers, on processes and on command lines, at inputs that meet their
-- conditions.
use omny.Base.{
  Bool, bytes_eq, ap, some_inj, length-take, ℕ, ◌*◌, ◌%◌, ◌≤◌, ◌≡◌, ◌≢◌, refl, ◌⊎◌, true, false,
  List, [], ◌∷◌, Option, none, some, Bytes, bytes, length, take, arith,
}
use omny.Base.Int.{pos}
use omny.Clock.{second}
use omny.Config.{Config}
use omny.Loader
use omny.Loader.{load}
use omny.Loader.File
use omny.Loader.File.{File, Decoded, decoded, defaults, load_file, load_file-IsAccepted}
use omny.Loader.Accepted.{IsAccepted, check-IsAccepted}
use omny.Admission.{empty, room}
use omny.Edit.Result.{panics}
use omny.Edit.Commands.{Flags}
use omny.Serve.{Server}
use omny.Serve.Living.{IsReady}
use omny.Chat.{Out, Reply, out_busy, refuse, admit, chat, slurp}
use omny.Chat.Reading.{IsBounded, slurp-room}
use omny.Chat.Holding.{IsTold, chat-IsTold}
use omny.Handler.{Gateway, Call, handle}
use omny.Handler.Serving.{Handles, handle-IsServed}
use omny.Run.{Start, Event, asks, hangs_up, ticks, World, run}
use omny.Main.{commands, main}
use omny.Main.Panicking.{main_fine}
use omny.Probe.{responded}
use omny.Examples.Gateway.{fp, config, noon, waits}
use omny.Examples.Witnesses.{routable, started}
use omny.Examples.Serving.{
  host_of, parts_of, is_blank, unproblematic, calls, to_text, of_text, no_files,
}
use omny.Examples.Streaming.{quoted}
use omny.Examples.Proxying.{plan, reader, decoder, decoder-Reads, peek, net, server}

chat-IsTold_example :
    ((admit empty (room (reader.content_length plan.body)) ≡ none)
      × (chat reader decoder peek waits (5 * second) net plan.body server empty
          ≡ some ((out_busy, refuse 503 none), server, empty)))
    ⊎ ((r : (Out × Reply) × Server) × (chat reader decoder peek waits
            (5 * second)
            net
            plan.body
            server
            empty
          ≡ some (r.0, r.1, empty))
        × IsTold fp reader decoder peek waits (5 * second) net plan.body server r)
chat-IsTold_example =
    chat-IsTold fp reader decoder peek waits (5 * second) net plan.body server [] routable started
      empty decoder-Reads

pos-inj : {m n : ℕ} → pos m ≡ pos n → m ≡ n
pos-inj e = cc

-- A prefix is no longer than its bound and than the whole.
taken :
    (n len : ℕ) (u b : Bytes)
    → some (take n u) ≡ some b
    → (length b ≤ n) × (pos (length u) ≡ pos len → length b ≤ len)
taken n len u b e =
    let l : length (take n u) ≡ length b = ap length (some_inj e) in
    (omega (arith, l, length-take n u), λ h. omega (arith, l, length-take n u, pos-inj h))

reader-IsBounded : IsBounded reader
reader-IsBounded = record {
  all_limited = λ n u b e. (taken n 0 u b e).0;
  from_limited = λ n u b e. (taken n 0 u b e).0;
  all_announced = λ n len u b l e. (taken n len u b e).1 l;
  from_announced = λ n len u b l e. (taken n len u b e).1 l;
}

slurp-room_example : length plan.body ≤ room (pos 16)
unfolding slurp
slurp-room_example = slurp-room reader plan.body plan.body reader-IsBounded refl

abbrev file : File
file = record { mode = some 384; content = bytes "token: t" }

abbrev read_yaml : Config → Bytes → Decoded
read_yaml _ _ = decoded config

file_loads : load_file false read_yaml host_of parts_of is_blank (some file) ≡ some config
unfolding load_file load File.parse_mode File.of_decoded File.lax Loader.is_empty
file_loads = rw unproblematic refl

load_file-IsAccepted_example :
    (f : File) × (m : ℕ) × (some file ≡ some f)
    × (f.mode ≡ some m)
    × (false ≡ false → m % 64 ≡ 0)
    × (read_yaml defaults f.content ≡ decoded config)
    × IsAccepted host_of parts_of is_blank config
load_file-IsAccepted_example =
    load_file-IsAccepted false read_yaml host_of parts_of is_blank (some file) config file_loads

-- The flags of `add` that take none, and leave all the arguments.
abbrev no_flags : Flags → List Bytes → Option (Flags × List Bytes)
no_flags f args = some (f, args)

main_fine_example :
    main quoted is_blank (λ b. b) none fp no_flags [] none false (bytes "add" ∷ bytes "groq" ∷ [])
    ≢ commands panics
main_fine_example =
    main_fine quoted is_blank (λ b. b) none fp no_flags [] none false
      (bytes "add" ∷ bytes "groq" ∷ []) (λ f g args rest e. ([], ap (λ x. x.1) (some_inj e)))

abbrev call : Call Bytes
call = record {
  line = bytes "POST /v1/chat/completions";
  auth = bytes "Bearer t";
  id = [];
  depth = [];
  upload = plan.body;
  now = noon;
  net = net;
  dial = λ _ _. responded 200;
  shuffle = λ jobs. jobs;
}

abbrev gateway : Gateway
gateway = record { server = server; memory = empty; seq = 0 }

-- A mux that finds the pattern of the line itself.
abbrev first_match : List Bytes → Bytes → Option Bytes
first_match patterns line = some line

abbrev parse : Bytes → Option Config
parse _ = some config

is_ready : IsReady fp host_of parts_of is_blank parse waits (5 * second) server
is_ready = record {
  accepted = check-IsAccepted host_of parts_of is_blank config unproblematic;
  served = [];
  settled = started;
}

handle-IsServed_example :
    Handles host_of parts_of is_blank parse fp
      (λ b. b)
      quoted
      second
      reader
      decoder
      peek
      waits
      (5 * second)
      (bytes "r")
      (λ n. n ∷ [])
      first_match
      call
      gateway
      decoder-Reads
      is_ready
      (handle fp
        (λ b. b)
        quoted
        second
        reader
        decoder
        peek
        waits
        (5 * second)
        (bytes "r")
        (λ n. n ∷ [])
        first_match
        call
        gateway)
handle-IsServed_example =
    handle-IsServed host_of parts_of is_blank parse fp (λ b. b) quoted second reader decoder peek
      waits (5 * second) (bytes "r") (λ n. n ∷ []) first_match call gateway decoder-Reads is_ready

-- A process that serves a request, is told to reload, saves and stops.
abbrev world : World
world = record {
  pid = bytes "7";
  pid_written = true;
  pid_removed = true;
  bound = true;
  shut = true;
}

abbrev events : List (Event Bytes)
events = asks call ∷ hangs_up (bytes "c") ∷ ticks calls ∷ []

-- Whether a file has a provider without an entry.
abbrev is_null : Bytes → Bool
is_null b = bytes_eq b (bytes "n")

abbrev outcome : Option Start
outcome =
    run host_of parts_of is_blank parse to_text of_text fp (λ b. b) quoted second reader decoder
      peek waits (5 * second) (bytes "r") (λ n. n ∷ []) first_match is_null world no_files noon
      events calls (bytes "c")
