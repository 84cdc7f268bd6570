-- ===== src/Lib.antt =====
-- Omny, a gateway in front of several language-model providers: cmd/omny and internal/omny.
--
-- A client's request names a model; `route` turns the name into targets, `order` puts the faster
-- ones first, and `walk` tries them one after another: for each it takes a key of the provider from
-- the pool, sends the request, and commits to the first answer that passes the gate. Keys have
-- quotas, cooldowns and counts of the requests that hold them, all behind the pool's mutex; a reload
-- swaps the configuration and keeps the keys that it still names. Requests reserve memory for their
-- bodies before they are read.
--
-- The files:
--   Base       names of the libraries, Boolean tests, lists, byte strings, maps and integers.
--   Clock      package time, as far as the pool reads it.
--   Config     internal/omny/config.go: Config, Provider, budget; a map is an association list.
--   Key        internal/omny/pool.go `Key`, `free`, `bench`, gate.go `spend`, speed.go `measure`.
--   Pool       internal/omny/pool.go: `Pool` and its methods; Pool/Reload `adopt`, Pool/Recovery
--              `soonest`, Pool/Traffic the interleavings of requests and reloads.
--   Route      internal/omny/route.go.
--   Order      internal/omny/speed.go: `tier`, `speed`, `order`, `tighten`.
--   Proxy      internal/omny/proxy.go: `once`, `attempt`, `walk`.
--   Relay      internal/omny/relay.go: `sniff.feed`, `pump`, `relay`; Relay/Count `sniff.count`,
--              Relay/Headers `head`.
--   Admission  internal/omny/serve.go `admit`, `release`, and the reservation of `dispatch`.
--   Dispatch   internal/omny/proxy.go: `try`, and `dispatch` from the parsed body on.
--   Loader     internal/omny/config.go: `check`, `Load`, with net, net/url and strings as arguments.
--   Access     internal/omny/config.go `who`, serve.go `guard`.
--   State      internal/omny/state.go: `save`, `restore`, `Replace`, `flush`, with the JSON
--              text as arguments.
--   Edit       internal/edit/splice.go and cli.go: Edit/Node the parsed tree, Edit/Splice the edits of
--              lines, Edit/Tweaks, Edit/Amend the whole edit, Edit/Commands the command line,
--              Edit/Notices `list` and `nudge`.
--   Body       internal/omny/body.go: `readBody`, `locate`, `step`, `send`, `swap`.
--   Gate       internal/omny/gate.go: `gate`, `verdict`, `after`; Gate/Forwarding with the relay.
--   Report     internal/omny/report.go, and pool.go `each`.
--   Serve      internal/omny/serve.go: `newServer`, `reload`, `models`.
--   Probe      internal/omny/probe.go: `asked`, `ping`, `shoot`, `probe`; config.go `join`, `dress`.
--   Wire       internal/omny/proxy.go: `once` and `flunk` with the body, the gate, the reset hint and
--              the relay that they call, as an environment of the walk.
--   Chat       internal/omny/proxy.go: `mark`, `dispatch` with its reservation and checks, `refuse`;
--              body.go `slurp`.
--   Handler    internal/omny/serve.go: `mux`, `guard`, `shield` and the handlers; proxy.go `chat`.
--   Run        internal/omny/run.go: `Run`; Loader/File config.go `Parse`.
--   Main       cmd/omny/main.go.
--   Examples   a small gateway, and each theorem at an input that meets its conditions.
--
-- State is passed explicitly. A `*Key` is an index into a heap, because a request may hold a key
-- that a reload dropped. Each method of the pool takes its mutex for all of its body, so it is one
-- event, and any list of events with their times is an interleaving of requests and reloads. The
-- atomic counter of `admit` is not behind a mutex, so its load and its compare-and-swap are steps of
-- their own. An index out of range and a target without its provider panic in the source, and are
-- `none` here, in the editor `panics`.
--
-- The network, the client and the clock are arguments: an environment answers the n-th question
-- put to it, whatever the question. The fingerprint of a secret, a SHA-256 prefix, is an argument
-- too. Loops recurse on the lists they range over, or on fuel: the 64 rounds of `tier`'s bit length are
-- enough for a 64-bit number, and the loops over a decoder and over arguments have one round more than
-- there are bytes or arguments, which theorems show to be enough.
-- Numbers are unbounded where the source has 64-bit counters, and the counters of a state file are
-- not negative.
-- A provider whose entry in the file is null is a nil pointer in the source, which `check` dereferences.
-- The configurations of Config have no nil provider, so the theorems about the loader, the editor and
-- the server are about files without a null entry; Run has the panic at a file with one.
--
-- The readers of JSON, YAML, numbers, times, addresses and command-line flags belong to other packages
-- and are arguments too; where a theorem relies on what one of them documents (a decoder's offset stays
-- in its input and grows, a parse of flags leaves the end of what it got), that is a hypothesis.
-- Where a text is quoted or encoded, so is the writer.
--
-- The events of a process are whole requests, hangups and saves, one after another; that their accesses
-- to the pool and to the memory counter interleave is the matter of Pool/Traffic and Admission.
--
-- Not modelled: the texts of refusals and pages, the HTTP header lines other than those named, the timer
-- that ends a silent stream, the transport's timeouts, the bound on concurrent probes, and logging. What a stream's timer does to the relay is a read that fails.
mod Base
pub mod Clock
pub mod Config
pub mod Key
pub mod Pool
pub mod Route
pub mod Order
pub mod Proxy
pub mod Relay
pub mod Admission
pub mod Dispatch
pub mod Loader
pub mod Edit
pub mod Body
pub mod Gate
pub mod Report
pub mod Serve
pub mod Probe
pub mod Wire
pub mod Chat
pub mod Handler
pub mod Run
pub mod Main
pub mod Access
pub mod State
mod Examples
