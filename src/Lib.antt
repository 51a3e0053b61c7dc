-- ===== src/Lib.antt =====
-- A DNS proxy that splits traffic between two groups of upstream servers, domestic (cn) and overseas.
-- A server hands each query to `Router.Route`, which chooses a group by the name (hosts, rules,
-- regular expressions, GeoSite) or asks both and decides by the country of the overseas answer; the
-- clients of a group race against each other (`client.RaceResolve`), and the outcome is written to
-- the query log (`querylog.AddLog`), which the web console reads page by page.
--
-- Which file models which part:
-- - Base and its children: Boolean tests, lists with native indices, 64-bit counters, texts as lists
--   of bytes, and maps as association lists.
-- - Base.Scanner is bufio.Scanner over lines, with its limit of 65,536 bytes.
-- - Base.Net is SplitHostPort and JoinHostPort of Go's net package on texts; Base.Handles counts what is
--   open.
-- - Dns: messages and records, and `DnsLib`, the functions of github.com/miekg/dns and of Go's net
--   package that the program calls. They are a parameter of every definition that needs them; the
--   documented behaviour that some theorems need is the record `IsDnsLib`.
-- - Client (internal/client): a client's answer `(resp, err)` is a `Reply`. Client.Race is
--   RaceResolve of resolver.go, over the sequence of events that its select statement sees; it takes
--   as many turns as there are clients, and the timer bounds each. Client.Stats is the StatsClient of
--   stats.go, and Client.Ecs is ensureECS of client.go and ExtractECS of ecs.go.
--   Client.Exchange is Resolve of udp.go and doq.go, the network being a record of what it answers.
--   Client.Pool is the pool of connections of tcp.go, in steps between which other queries may run;
--   Close is one of them. Client.Pool.Exchanges and Conserved hold proofs.
-- - Bootstrap (internal/resolver/bootstrap.go): the servers, their parsing and the rotation over them.
--   Bootstrap.Flights is LookupIP with lookupOnce, in the steps between which others may run.
--   Sound, Sources, Conclusions, Answers and Rotation hold proofs.
-- - Router (internal/router): the Router and the GeoDataManager with their lookups. Router.Names is
--   matchNames, Router.Judge the verdict on two answers at the end of routeInternal, Router.Internal
--   the rest of routeInternal, and Router.Route the method Route with the service-binding check, the
--   log entry and the lifetimes. Router.Assigned, Router.Contract and Router.Negative hold proofs on
--   them. The loop over two results has two turns, as the source has. The answers of the network are
--   the record `Net`, one for each run of routeInternal.
-- - QueryLog (internal/querylog/querylog.go): the logger's state and the operations on its memory.
--   QueryLog.Ring, Counters, History, Numbering and Window hold proofs on the ring buffer, the counter
--   maps, sequences of operations, the entries' numbers and the window of recent queries;
--   QueryLog.Pages is GetLogs on the entries in memory.
-- - QueryLog.File (same file): appendToFile and pruneLogFile on the bytes of the log file.
--   QueryLog.File.Backwards is readLogsFromFileBackwards and the whole of GetLogs; its loop over chunks
--   has a round for each byte of the file, and each round reads one at least. QueryLog.File.Restore is
--   restoreStatsFromFile. Lines, Scanned, Read, Paged, Logs, Appended and Newest hold proofs, from bytes
--   to lines to entries to pages. JSON is the record `Json`, and whether the reads and the steps of an
--   append succeed is an argument.
-- - Config (internal/config/config.go): the files hosts.txt and rule.txt as texts. Config.Lines and
--   Config.Saved hold proofs on reading one line and on reading what was saved. Config.Listen is
--   normalizeListenConfig with the addresses of the services; Config.Listen.Section says how a listen
--   section may be written, and Written and Normal hold proofs. Config.Stored is LoadConfig and Save on
--   a map of files, with YAML and path/filepath as parameters; Config.Stored.Reload holds proofs.
-- - Web (internal/web/server.go): the sessions of the web console. Web.Accepted holds proofs on
--   histories of requests.
-- - Settings (internal/config/config.go): the types of the configuration that other parts read.
-- - Server (internal/server): `serve_dns` is ServeDNS of dnsserver.go, for UDP, TCP and DoT; Server.Doh
--   is ServeHTTP of dohserver.go and Server.Doq handleQuicStream of doqserver.go. What packs and
--   unpacks messages is the record `Wire`. Server.Answers, Http and Stream hold proofs.
-- - Download (internal/util/download.go): DownloadFile on a map of files; Download.Replaced holds proofs.
-- - Manager (internal/manager/manager.go): which components are started and which field holds them,
--   under Start, Stop, Reload and reloadCurrent. Manager.AutoUpdate is runAutoUpdate, in the steps
--   between which it holds no lock. Manager.Owned, Failed, Reloads and Updates hold proofs.
-- - Tests: the examples at which the statements are evaluated.
--
-- Go's int and int64 counters are 64-bit patterns that wrap; indices are numbers. Each loop
-- is recursion over its list, or over the number of turns that the source fixes; `decimal`, the
-- printing of a number, runs on fuel: one more than the number, which has at most as many digits; so
-- does the loop over the chunks of the log file, as said above.
--
-- Not modelled: the listeners, TLS, QUIC and HTTP connections of the servers and clients, whose
-- effect is the bytes and answers in `Net`, `UdpNet` and `QuicNet`; the clients
-- internal/client/dot.go and doh.go; the queue and the goroutine that write the log file; the geo
-- database files; the choice of the configuration's path, and its fields for upstreams and
-- certificates, which LoadConfig and Save only carry along; the other handlers of the web console;
-- and cmd/doh-autoproxy. Goroutines appear as the order of the events they send or of their steps; a
-- mutex appears as the atomicity of a function.
pub mod Base
pub mod QueryLog
pub mod Dns
pub mod Client
pub mod Bootstrap
pub mod Router
pub mod Config
pub mod Web
pub mod Settings
pub mod Server
pub mod Download
pub mod Manager
pub mod Tests
