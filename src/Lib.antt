-- ===== src/Lib.antt =====
-- A model of ferrijs, a JavaScript runtime around QuickJS, and of what makes its sandbox correct.
--
-- The permission model (crates/ferrijs-permissions/src/lib.rs) decides what a script may do. A
-- `Permissions` value holds a grant (`Allow`) and a list of denials for each of five kinds; a
-- `Container` holds the policy of one realm, which its methods are meant only to narrow. The network
-- guard (crates/ferrijs-fetch/src/net_guard.rs) asks a policy about each URL and filters resolved
-- addresses; the header list (crates/ferrijs-fetch/src/headers.rs) is what requests are built of,
-- and crates/ferrijs-fetch/src/cookie.rs parses, matches and stores cookies. The engine
-- (crates/ferrijs-fetch/src/engine.rs) sends a request: it asks the guard about each URL, sends
-- the hop with its cookies, retries after a connection reset, stores the cookies of the response,
-- follows redirects and answers a challenge, with a client out of its cache.
--
-- Files. Prelude and Text: shared helpers; a text is the list of its code points, with what the
-- program uses of `str`. Permissions: Allow (grants and their intersection), Path (rules over
-- paths), Net (rules over hosts), Sys, Policy (`Permissions` and its checks), Container, Ip.
-- Fetch: Guard, Headers, Cookie, Multipart (crates/ferrijs-fetch/src/multipart.rs: bodies of forms
-- and their parser, which cuts on fuel for every byte) and Engine, whose Model has the data, Hop
-- one hop, Send the loop and Pool the clients; Turn says what one round of the loop comes to, and
-- Run, by induction on the rounds, what a request comes to. Std: ReuseList, a list that reuses the
-- slots of removed items (crates/ferrijs-std/src/utils/reuse_list.rs), where an index out of
-- bounds, a panic in Rust, is `none`, Encoding (crates/ferrijs-std/src/encoding/mod.rs), the
-- encoders, their labels and conversions, whose Reference has hexadecimal and base64 texts after
-- RFC 4648, FsGuard (crates/ferrijs-std/src/fs/guard.rs), the checks in front of the `fs` entry
-- points, NodePath (crates/ferrijs-std/src/node/path.rs), operations on POSIX paths, whose
-- Reference has the stack of segments that the one pass of the code is compared with, and
-- StringDecoder (crates/ferrijs-std/src/string_decoder/decoder.rs), which decodes bytes that
-- arrive in chunks. Std.Events (crates/ferrijs-std/src/events/mod.rs) is the listener table of an
-- emitter and its emissions, with Promise, what an emitter promises. Runtime: Deadline
-- (crates/ferrijs/src/limits.rs), the budgets that are armed in a realm and the deadline that its
-- interrupt handler reads, and RealmPool (crates/ferrijs/src/pool.rs), realms that are built ahead
-- of need. A file below one of these proves what its name says; Examples holds the tests and each
-- theorem at a concrete input.
--
-- How the state corresponds: a method on `&mut self` is a function from the record to the new
-- record, with the result beside it; `Result` and `Option` are data; the lock round a container's
-- policy leaves no trace, so a method is one step; the audit callback is the list of its calls.
-- Fuel: `Text.Number.show` has more rounds than a number has digits; the loop of `send` has two
-- rounds for each redirect that its budget allows and two for the last URL, since an answered
-- challenge sets an authorization and no second one is answered before a redirect drops it. All
-- that the engine sends is a list, and what the transport, the clock and the bridge answer may
-- depend on it; the loop of `resolve_existing` recurs on the components that are left.
--
-- Parameters: the file system (`current_dir`, `canonicalize`), URL parsing, address parsing and
-- printing, the other operations of the `url` crate, the transport, the bridge to a host's
-- cookies, DNS lookups, the hook, `f64` and the clock of the cookies, the conversions of bytes to
-- text of the decoder and of forms, the builds of realms, the clock of a host that stops a realm,
-- what the calls of an emission throw, whether the HTTP client builds.
--
-- Not modelled: bodies as they are read, timing but for the deadline, Windows path prefixes,
-- serde, printing of refusals and reports, async scheduling but for the histories named above, and
-- the parts of the repository over QuickJS, tokio and cryptography crates (web streams, crypto,
-- bundler, modules).
pub mod Prelude
pub mod Text
pub mod Permissions
pub mod Fetch
pub mod Std
pub mod Runtime
