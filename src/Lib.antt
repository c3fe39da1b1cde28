-- ===== src/Lib.antt =====
-- Verification of demosvc (demosvc/ in the repository): a kratos service, and the programs beside it
-- under demosvc/cmd/. The programs do not call each other in one process; the OAuth2 programs meet over
-- HTTP, two of the order programs meet in Redis, and the others stand alone.
--
-- The parts and their files (paths below demosvc/):
--
-- Service: the greeter service.
--   Service/Kratos     what the service uses of kratos and go-i18n: contexts, handlers and middlewares
--   Service/Localize   internal/pkg/middleware/localize/localize.go: I18N, FromContext
--   Service/Greeter    internal/biz/greeter.go, internal/data/greeter.go, internal/service/greeter.go:
--                      GreeterUsecase, greeterRepo, SayHello
--   Service/Servers    internal/server/http.go and grpc.go: NewHTTPServer, NewGRPCServer
--   Service/Http       api/helloworld/v1/greeter_http.pb.go: the route, its handler and the client
--   Service/Grpc       api/helloworld/v1/greeter_grpc.pb.go: the method, its handler and the client
--   Service/Auth       internal/service/auth.go: AuthService
--   Service/AuthGrpc   api/helloworld/v1/auth_grpc.pb.go: its gRPC methods, which no server registers
--   Service/AuthHttp   api/helloworld/v1/auth_http.pb.go: its HTTP routes, which no server registers
--   Service/App        cmd/demosvc/main.go and wire_gen.go, internal/data/data.go: main, wireApp, newApp
--   Service/Serving    a request through a server's middlewares to SayHello
-- A request enters a server, runs through its middlewares from the first to the last, and reaches
-- SayHello, which reads the localizer that the I18N middleware has put into the context.
--
-- OAuth: the OAuth2 and OpenID Connect programs.
--   OAuth/Server       cmd/auth/auth.go: authorizeHandler, tokenHandler and their two maps
--   OAuth/Server/Codes     each handler on every branch
--   OAuth/Server/Sessions  the sections under the server's mutex as steps, in any interleaving
--   OAuth/Relying      cmd/oauth/server/server.go: handleAuth, Login, handleCallback, handleToken
--   OAuth/Routes       the router of that program, with its middleware
--   OAuth/Resource     cmd/resource/resource.go: verifyTokenMiddleware, Cors and GET /protected
--   OAuth/Protected    the resource server's answer, and when the relying party's callback redirects
--   OAuth/Client       cmd/authclient/authclient.go and cmd/oauth/client/client.go: getAccessToken and
--                      getProtectedResource, whose requests reach OAuth/Server in OAuth/Client/Flow
--   OAuth/Browser      cmd/callback/callback.go and the pages that send a user to a login
--
-- Payment: the strategy and decorator programs under cmd/design/.
--   Payment/PlainStrategy, Payment/Strategy     strategy/stragety.go, strategy/strategy/strategy.go
--   Payment/PlainDecorator, Payment/Decorator   decorator/decorator.go, decorator/decorator/decorator.go
--   Payment/Tracker    PaymentTracker, which two of them declare alike
--   Payment/Floats     float64 as a parameter: its operations and facts of IEEE 754
--
-- Heap: cmd/heapx/heapx.go, MinHeap with Insert and ExtractMin, and calls of both in a row (Queue).
-- Patterns: cmd/design/flyweight/flyweight.go (GetCircle), cmd/unsafe/unsafe.go (ObjectPool) and
-- cmd/condx/condx.go (Patterns/Condition: goroutines that wait on a sync.Cond, as interleaved steps).
-- Lottery: cmd/design/lottery/demo/demo.go, LotteryService over MongoLotteryRepository and main (Service,
-- Repository, Program), and cmd/design/lottery/lottery.go, storage strategy, cache and factory (Warehouse).
-- Orders: the programs under cmd/redis/order/: order.go (Orders/Hash), order1/order1.go
-- (Orders/Ranking), order2/order2.go (Orders/Sets) and order3/order3.go (Orders/ActionLog, and the Lua
-- script that it runs on an order that order.go stores, Orders/Script).
-- Generics: cmd/fanxing/fanxing.go: Filter, Map1 and Reduce (Slices), Add and AddT (Sums), DemoStruct,
-- and the type constraints with the types that satisfy them (TypeSets).
-- Ws: pkg/ws/ws.go, WsHandler (Echo); cmd/client/ws_client.go (Client), a state machine over the events
-- of its select; cmd/design/lottery/timeline/timeline.go (Broadcast), the handlers of the clients and the
-- broadcaster as interleaved steps.
-- Sharding: cmd/design/sharding/shardding.go, addDBPool and getDBConnectionByKey over a consistent hash,
-- and the loop of cmd/design/sharding/gorm/demo.go that makes the shards' tables (Tables) with
-- the statements that its main runs through gorm's plugin (Routing).
-- RedisDemos: under cmd/redis/: sortsetx (Leaderboard), setx (Scan), stringx and jsonx (Values) and
-- key_event_namespace (Events).
-- WireDemo: cmd/wiredemo/main.go and wire_gen.go.
-- Generator: cmd/generatex.go, generateFile, the templates and the files that main writes.
-- GinApp: my-gin-app, which that program wrote: the user routes and the logger.
-- GinLogin: cmd/gin/gin.go, the login page.
-- Dex: cmd/grpcclient/grpcclien.go, createPassword against dex's API.
-- Prelude: shared names, lists, association lists, signed integers, outcomes, and strconv's Itoa and
-- Atoi (Prelude/Decimal).
--
-- How the code is modelled. A Go call that can fail ends as an `Outcome` (a value, an error, or a panic)
-- or as a result with an error; a map is an association list, a slice a list, a pointer to a shared
-- object an index into a store. State is passed explicitly. Code outside the repository (kratos, gin,
-- go-i18n, go-oidc, net/url, go-redis, the MongoDB driver) is a parameter, and what it documents is a
-- hypothesis where a theorem rests on it; each such theorem is applied once to a concrete parameter.
--
-- Bounds and fuel. The heap's loops take fuel: bubbleUp the length of the array, bubbleDown the length
-- and one more, which the heap's theorems show to be enough; the echo loop takes any fuel above the round
-- in which the connection fails, and the scan loop any above the number of its pages. Decimal digits take
-- the number and one more. Atoi returns the nearest 64-bit integer for a number out of range, as Go does
-- on a 64-bit machine. Texts are sequences of characters, so where Go counts bytes (order.go's orderKey[6:])
-- the model agrees with it for ASCII texts. The additions of Generics/Sums wrap at 32 or 64 bits; the integers of the other
-- programs are unbounded, since they only compare or store them.
--
-- Not modelled: generated code (the *.pb.go files, but for the HTTP and gRPC glue named above), logging
-- and printing where no theorem is about it, the programs that only show a client library
-- (cmd/redis/bitmap, hsetx, listx, timestramp and cmd/graphql), and what only configures a client or a
-- server.
pub mod GinLogin
pub mod RedisDemos
pub mod WireDemo
pub mod GinApp
pub mod Generator
pub mod Sharding
pub mod Dex
pub mod Ws
pub mod Generics
pub mod Prelude
pub mod Heap
pub mod Lottery
pub mod OAuth
pub mod Orders
pub mod Patterns
pub mod Payment
pub mod Service
