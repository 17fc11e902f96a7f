-- ===== src/Lib.antt =====
-- A cross-exchange funding arbitrage bot: order books of several exchanges come in, a scanner looks for
-- the best pair of a long and a short leg, checks it, executes it, and follows the open positions.
--
-- The parts, and the code that each models:
--   Prelude        shared names, Boolean tests, lists, integers, byte strings and maps
--   Clock          the operations of Go's `time` package that the program uses
--   Float          `float64` as a parameter, with what IEEE 754 says of it; Float.Fixed is a type with
--                  these operations on which the examples run
--   Exchange       internal/exchange/types.go: names, books, orders, the connector interface
--   Exchange.Stub  internal/exchange/stub.go and the trading methods of internal/exchange/public_ws.go
--   Exchange.Levels, Exchange.Symbols, Exchange.Messages  internal/exchange/public_ws.go: the rows of a
--                  book, the names of symbols, and `parseSnapshot`
--   Exchange.Subscribe  internal/exchange/public_ws.go: `subscribe`, `handleControl`, `endpoint`
--   Exchange.Session  internal/exchange/public_ws.go: `run` and `Start` over what the network delivers
--   Exchange.Adapters  internal/exchange/bybit, okx, htx, kucoin: `New`
--   Tables, MarketData  internal/marketdata/orderbook.go: the latest book of each symbol and exchange
--   Funding        internal/funding/store.go: funding snapshots and the synthetic ones
--   Strategy       internal/strategy: `EstimateFunding` (Estimate), its helpers (Depth), the id (Ident)
--   Risk           internal/risk/engine.go: `Check`
--   Execution      internal/execution/engine.go: `Execute`
--   State          internal/state: the position book and the opportunity log
--   Storage        internal/storage/redis.go: the event queue and the commands of the writer; its loop and
--                  the reads of the history (Server)
--   Api            internal/api/server.go: the handlers and the limit of a request
--   App.Config     internal/app/config.go: the records, `DefaultConfig`, the apply functions (Values)
--                  and `LoadConfig` (Load)
--   App.Scanner    internal/app/scanner.go: `bestOpportunity`, `refreshPositions` (Refresh) and
--                  `OnOrderBookUpdate` (Update)
--   App.Runtime    internal/app/runtime.go: `NewRuntime`, `buildConnectors`, `feeView` and the steps of
--                  its goroutines; the latter with the sequence of updates (Trace) and with the channel
--                  between connectors and scanner (Channel); `runScanner` as a loop (Loop), and `Run` from
--                  the start of its goroutines to its return (Lifecycle)
--   Command        cmd/arb-bot/main.go: `main`, as the exit code of the process
--   Tests          examples on concrete data
--
-- How they interact: a connector (Exchange.Session) sends books to a channel (App.Runtime.Channel), from
-- which the runtime takes them. `handle_update` stores a book (MarketData.apply), derives its funding snapshot
-- (Funding.apply_synthetic_from_order_book), queues an event (Storage.enqueue) and calls the scanner. The
-- scanner estimates every pair (Strategy), checks the best (Risk), executes it (Execution), and
-- records it in the position book, the opportunity log and the queue (State, Storage). The stores
-- are shared by pointer in the code; here one record, `Scanner`, holds them all. The writer takes the
-- events from the queue (Storage.Server), and the admin API reads the stores and the history (Api).
--
-- State and operations: a struct is a record with the fields of the source, a method is a function
-- from the state to the new state, and a panic or a missing value is `none`. A `map[string]V` is an
-- association list with distinct keys. The orders in which `bestOpportunity` visits the books are
-- arguments, new ones for each update; `OpenPositionsBySymbol` lists the positions in the order of the
-- association list. Locks make each store operation one step. The clock, the arrival order of two responses, JSON encoding and decoding, the
-- conversions of `strconv` and the connectors are arguments. A text is its bytes; white space and
-- the case of letters are those of ASCII. `int` and `time.Duration` are integers;
-- arithmetic on durations saturates or wraps as in Go. A float operation is rounded by itself;
-- a compiler that fuses a product and a sum would round once.
--
-- Bounds and fuel: loops are recursions on lists. `print_digits` of Strategy.Ident has fuel 20, which is
-- enough since an `int64` has at most 19 digits. Instants are below 2^63 nanoseconds where a
-- theorem says so.
--
-- Not modelled: what the network, the Redis server, gzip and JSON do, which are arguments; time limits of
-- operations and the delay between two attempts of a connector; the ping of the writer, which only logs;
-- the opening of the file in `LoadConfig` and the texts of its errors; the HTTP server, which is a
-- goroutine that ends with an error or without, and the time that its shutdown takes; logging; and the
-- flags, the logger and the signal handler in cmd/arb-bot/main.go.
-- Within one update the writer of the queue does not run; it runs between any two updates. The
-- readings of the clock within one check or one estimate are one reading.
pub mod Prelude
pub mod Float
pub mod Clock
pub mod Exchange
pub mod Tables
pub mod MarketData
pub mod Funding
pub mod Strategy
pub mod Risk
pub mod Execution
pub mod State
pub mod Storage
pub mod Api
pub mod App
pub mod Command
pub mod Tests
