-- ===== src/Lib.antt =====
-- A model of chrono, a Go library of clocks for distributed systems, and proofs of what it promises.
--
-- The packages and their files:
--   Lamport     lamport/clock.go: the Lamport clock. Its methods are `tick`, `send`, `receive`,
--               `now` and `reset` on a record with the counter.
--   Wallclock   internal/wallclock/{clock,fake}.go: the clock that hlc reads, and its fake.
--   Hlc         hlc/clock.go: timestamps and the hybrid logical clock; `advance_locked` is
--               advanceLocked, and `merged` and `receive_logical` are the parts of Receive.
--               Hlc/Encode is the binary form of hlc/encode.go, Hlc/Json the JSON form, and Hlc/Text
--               the String of a timestamp.
--   Vector      vector/clock.go: the vector clock and its snapshots; Vector/Compare is
--               vector/compare.go; Vector/Encode is the binary form of vector/encode.go and
--               Vector/Json the JSON form.
--   Dotted      dotted/version.go: version vectors; Dotted/Resolve is dotted/resolve.go.
--   Ordering    ordering/happens_before.go: one interface for the stamps of lamport, hlc and vector;
--               Ordering/Extremes and Ordering/Topological are ordering/partial_order.go, and
--               Ordering/Causality puts the stamps of an execution through the adapters.
--   Truetime    truetime/interval.go and truetime/clock.go: intervals that contain the global time;
--               Truetime/CommitWait is truetime/commit_wait.go, Truetime/Ntp the arithmetic of
--               truetime/ntp_source.go, and Truetime/Ntp/Refresh its Start and Stop. The record
--               `TrueTime` in Truetime/Consistency is the promise of truetime/doc.go.
--   TruetimeExternal
--               examples/truetime_external/main.go: two scenarios with and without a commit wait.
--   HlcDb       examples/hlc_db/main.go: two nodes whose wall clocks disagree.
--   VectorKv    examples/vector_kv/main.go: a store that keeps concurrent writes as siblings;
--               VectorKv/Session is its main and versionStr.
--   LamportMessaging
--               examples/lamport_messaging/main.go: two goroutines that exchange messages.
--   GoMap       Go maps, and the loops over counters that vector and dotted both have.
--   Causal      executions of processes that own a logical clock, Lamport's happens-before relation
--               on their events, and the interface `LogicalClock` that Lamport, Hlc and
--               Vector fill.
--   Prelude     Booleans, lists, integers, machine words, byte strings, Go strings, decimal
--               numerals, stable sorting, and encoding/json as a parameter.
-- The module Examples of a package runs its functions and applies its theorems at concrete inputs.
--
-- How the code is modelled:
--   * A method of a clock takes the clock and returns the new one with the result. Each method holds
--     the clock's mutex from its first to its last access to the state, so that it is one step.
--   * A uint64 or uint32 is a number that is reduced modulo 2 ^ 64 or 2 ^ 32 where the code adds; an
--     int64 is an integer that wraps (`i64`). A time.Time is the integer number of nanoseconds since
--     the Unix epoch, without a monotonic reading, and Sub of two of them is held to the range of an
--     int64.
--   * A Go map is an association list with distinct keys (`IsMap`), in any order: the theorems hold
--     for every order in which Go may visit it. A missing key reads 0.
--   * What the wall clock reads during a method of Hlc is the argument `pt`; a bound of 0 in
--     `max_drift` means no check, as in the code.
--   * In Truetime/CommitWait the source and the context are functions of the number of the call of
--     Now, which is the state. The loop runs on fuel, one unit a round, and `waiting` is the outcome without fuel. A
--     round's timer waits for at least 100 µs, so that a gap of less than `n` times 100 µs takes at
--     most `n` rounds of a running clock and one more that ends the loop: fuel `n + 1` is enough.
--   * In Truetime/Ntp the reply of the network and the reading of the system clock are arguments. In
--     Truetime/Ntp/Refresh the calls of Start and Stop come from one goroutine, since they share
--     fields without a lock; the refresh goroutines take their steps between them in any order, from
--     before their first step on. The system stops at a panic. One is that of
--     NewTicker on a query interval that is not positive, which NewNTPSource does not refuse.
--   * In Dotted/History a history is a version without zero counters, up to Equals: a quotient.
--   * sort.Strings and sort.SliceStable are `sort_stable`, an insertion sort, as their documentation
--     determines the result: sorted strings without duplicates, and the stable order.
--   * In Vector/Encode the buffer is a list of bytes and an out-of-range write is a panic, `none`.
--   * In Ordering/Topological the slices of indices are functions of the index. The main loop runs
--     with the number of events that `out` misses; each round adds one or is the last, so that this
--     number is enough.
--   * encoding/json is the parameter `Json`, a pair of functions on the values of a private struct;
--     `Restores` is what it documents for a value with valid UTF-8 strings. The map of a Snapshot
--     that a Clock made is not nil; a snapshot of Go's zero value, whose map is, is not modelled.
--   * In HlcDb and VectorKv/Session the programs' constants are arguments.
--   * In LamportMessaging a step is what a goroutine does between two accesses to something shared. A
--     send waits while the channel is full, and a receive while it is empty. `outputs` in
--     LamportMessaging/Schedules visits every schedule on fuel 13, one more than there are steps.
--
-- Not modelled: encoding/json itself, the sockets under an NTPSource, what the programs in examples
-- only print, and the tests in proofs and benchmarks.
pub mod Causal
pub mod Dotted
pub mod GoMap
pub mod Hlc
pub mod HlcDb
pub mod Lamport
pub mod LamportMessaging
pub mod Ordering
pub mod Prelude
pub mod Truetime
pub mod TruetimeExternal
pub mod Vector
pub mod VectorKv
pub mod Wallclock
