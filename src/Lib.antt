-- ===== src/Lib.antt =====
-- go-ddd-core, a Go library of building blocks for domain-driven services, and its worked example.
--
-- The program's parts and the files that model them:
--   domain/                      Domain.antt: entities, events, aggregates with pending events
--   domain/errors.go             Errors.antt: Go errors as values, errors.Is, errors.As, errors.Join
--   pkg/errorsx/                 Errorsx.antt: coded errors with detail maps; Errorsx/Maps.antt is the
--                                heap of those maps
--   pkg/errorsx/httpx/           Httpx.antt: HTTP status and body of an error
--   transport/grpc/              Grpc.antt: gRPC status of a code, combination of providers
--   eventsourcing/               Eventsourcing.antt: Raise, LoadHistory and the EveryN policy;
--                                Eventsourcing/Store.antt: the event store by its documentation
--   application/unitofwork.go    UnitOfWork.antt
--   application/command/         Bus.antt, the in-memory bus with names by reflection and middlewares,
--                                and Command.antt, which fixes its errors
--   application/query/           Query.antt, the same bus with the errors of queries
--   application/usecase/         the adapters at the end of Command.antt and Query.antt
--   application/query/spec/      Spec.antt: specifications
--   eventbus/                    Eventbus.antt: envelopes, middlewares and the router;
--                                Eventbus/Outbox.antt: the outbox record and the header names
--   bootstrap/                   Bootstrap/Lifecycle.antt, Bootstrap/Registry.antt, Bootstrap/App.antt
--   pkg/pagination/              Pagination.antt
--   transport/graphql/           Graphql/Cursor.antt over Graphql/Base64.antt, Graphql/Filter.antt
--   pkg/contextx/                Contextx.antt: identifiers in a context
--   config/                      Config.antt: the provider over viper; Config/Schema.antt: the schema
--   pkg/vo/uuid/, pkg/idgen/     Uuid.antt
--   ports/idempotency/, ports/ratelimit/, transport/http/   Ports.antt: statuses and results, Chain
--   eventbus/inbox.go, eventbus/inboxtest/                  Ports/Inbox.antt
--   ports/storage/, its storagetest/                        Ports/Storage.antt, with the reference
--                                store in Ports/Storage/Reference.antt
--   ports/cache/, its cachetest/                            Ports/Cache.antt, with the reference cache
--                                in Ports/Cache/Reference.antt over the slices of Ports/Slices.antt
--   ports/ratelimit/ratelimittest/                          Ports/Ratelimit.antt
--   ports/idempotency/, its idempotencytest/                Ports/Idempotency.antt, with the reference
--                                store in Ports/Idempotency/Fake.antt and the reclaim suite in
--                                Ports/Idempotency/Reclaim.antt
--   ports/jobs/, its jobstest/jobstest.go                   Ports/Jobs.antt
--   ports/jobs/, its jobstest/delivery.go                   Ports/Jobs/Delivery.antt
--   ports/jobs/jobstest/delivery_test.go                    Ports/Jobs/Reference.antt, the reference store
--   ports/logger/, ports/health/, examples/minimal/infra/slogger/   Ports/Logger.antt
--   ports/auth/                                             Ports/Auth.antt, with the interfaces for
--                                adapters in Ports/Auth/Access.antt
--   examples/minimal/domain/     Minimal/Account.antt and Minimal/Order.antt
--   examples/minimal/application/order/, examples/minimal/infra/memrepo/   Minimal/Shop.antt
--   examples/minimal/cmd/main.go                            Minimal/Wiring.antt
--   examples/minimal/infra/httpsrv/                         Minimal/Server.antt
-- Prelude.antt and the files below it hold what the parts share: lists and Boolean tests over the native
-- numbers, integers, int64 with wrap-around, Go maps as association lists, and the order of texts. The
-- files below a part hold its theorems (most are called Laws), and Tests.antt and the files below it run
-- them on concrete inputs.
--
-- How the parts meet: an aggregate of the example embeds Domain's BaseAggregate and fails with the rule
-- violations of Errors; Errorsx wraps errors with codes, which Httpx and Grpc turn into statuses; a
-- use case is an effect that a bus stores under the name of its input type; the event router calls
-- handlers by event name and settles each message; the container of Bootstrap starts modules and stops
-- them in reverse; Graphql builds specifications of Spec and pages of Pagination; the example reads its
-- configuration by Config, serves two routes that dispatch on the two buses to the use cases over the
-- repository, and runs its server as a module of Bootstrap.
--
-- State and operations: a method with a pointer receiver becomes a function that returns the new struct,
-- and an error result becomes an Option or a Result beside it. Where the code shares a pointer and a
-- theorem depends on it (the detail maps of errors, the orders in the repository), references and a
-- heap are explicit. The program state of handlers, hooks and modules is a parameter. The goroutine of
-- the event router is driven by an explicit sequence of signals. An int64 is an integer that is reduced
-- to its range after each operation. All loops run over a list but three: the walk over the pages of a
-- store has fuel, where one page more than the store has keys is enough; the polling of the reclaim suite
-- has fuel, where twelve iterations are; and a wait of the delivery suite runs over the instants of its
-- bound.
--
-- A port is a record of operations over the state of an implementation. Its conformance suite is a list
-- of scripts, one for each t.Run: calls of the port, each with what follows on its reply, and the ways
-- in which testing.T records a failure (Ports/Suite.antt). A script sees of an error what errorsx.CodeOf
-- and errors.Is tell (Ports/Contexts.antt), and byte slices by reference where the suite writes to them.
-- So a suite runs on every implementation. In the suite of ports/jobs/jobstest/delivery.go the
-- implementation runs beside the test: at each instant of a wait it is asked what its workers do, which
-- is to call a handler of the test, to end the context of a call, or to return from Run.
--
-- Not modelled: mutexes and contexts (the code only passes contexts on), operating system signals, the
-- bytes of JSON, the routing of net/http, and the ports that are interfaces only (ports/httpclient,
-- ports/observability). The packages viper, google/uuid, log/slog and net/http are parameters. The
-- goroutines of ports/idempotency/idempotencytest and of the concurrent subtest of
-- ports/jobs/jobstest/delivery.go are calls in sequence, each atomic; a sleep there takes just as long as
-- it is asked to, and workers proceed only while the test waits. Of the reference workers of
-- ports/jobs/jobstest/delivery_test.go the select of the ticker and the goroutines of the handlers are not
-- modelled, only their calls of the store, in any order. A type parameter of a bus is a named type or
-- pointers to one: an interface type, or another unnamed type, is not modelled. Watermill messages are known by a number, and fmt's %q is a parameter because it
-- only shapes the text of an error.
pub mod Prelude
pub mod Errors
pub mod Errorsx
pub mod Httpx
pub mod Grpc
pub mod Domain
pub mod Eventsourcing
pub mod Bus
pub mod Command
pub mod Query
pub mod Eventbus
pub mod Spec
pub mod Bootstrap
pub mod Pagination
pub mod Graphql
pub mod Minimal
pub mod Contextx
pub mod Uuid
pub mod UnitOfWork
pub mod Config
pub mod Tests
pub mod Ports
