-- ===== src/Lib.antt =====
-- The multiedge-relay SDK (src/multiedge_relay). A publisher posts signals to a relay over HTTP, with
-- one retry policy, and dead-letters what it cannot send; a subscriber reads a strategy's signals
-- back in sequence, page by page and then live, and commits a cursor; a state store records which
-- signals are processed; webhook receivers check a signature before they read a body; in sealed mode a
-- publisher encrypts and signs payloads that only the listed subscribers open.
--
-- Which file models what:
--   Models, Errors   models.py and exceptions.py: the fields, the class tests of `except` clauses.
--   Exec, Exec/Loop  methods that change a state and may raise; what was written before a raise
--                    stays written. Loops run on fuel; `unfinished` is a loop whose fuel has run out.
--   Retry            _retry.py. A duration is a whole number of ticks of 2^-54 s, and a draw of
--                    `random_fn` a multiple of 2^-53, so that the floats of the backoff are exact.
--   Ulid             ulid.py, with the module's globals as a record.
--   World, Process   what a process has outside it (relay, clocks, random source, disk answers,
--                    pydantic and json), answering by turns, and the state of a publishing process.
--   Disk, Dlq        dlq.py, over a file system of whole files; Resend has `DiskDLQ.resend`.
--   Publisher        publisher.py: `prepare_signal`, `publish` and its retry loop, `publish_many`. The
--                    loop takes one unit of fuel for each request; a cap on attempts below the fuel
--                    is enough.
--   Publisher/Async  publisher_async.py: the same as coroutines, over Coroutine, where a task gives the
--                    event loop what it awaits and is resumed with any machine.
--   Subscriber       subscriber.py: `_fetch_page` and the sliced sleep; Delivery: `_deliver`; CatchUp:
--                    the start position, `_scan_latest` and `_catch_up`; Live: `_handle_live_message`,
--                    `_drain_with_fill` and `_fill_from_rest`; Poll: `run` with the poll
--                    transport; WebSocket: `_negotiate_ws` and one connection of `_run_webpubsub`,
--                    whose two threads are steps in any order, with `_drain_prelive` and
--                    `_on_ws_event`; WebSocket/Reconnect: what an error leads to. The cursor store is
--                    an interface. The loops have no bound of their own (a subscriber retries until
--                    it is stopped), so what is stated of them holds for every fuel, with `unfinished`
--                    among the ends; with a relay that answers, a catch-up needs one unit for each
--                    signal of the relay's log after the position, and one more. Backlog has that log
--                    as the subscriber reads it.
--   Cursor           cursor.py: `FileCursorStore`.
--   Sealed           sealed/: Keys and KeyFiles (keys.py), Core, Seal and Unseal (core.py) and Registry
--                    (registry.py). Primitives has what `cryptography`, `hashlib`, `base64` and `json`
--                    do, and `Laws` what their documentation states. What they draw is an argument.
--   StateStore       state_sqlite.py: the tables, one transaction with its rollback, `commit`,
--                    `exactly_once_tx`, `process`, `prune`, `seen` and the vacuum loop.
--   Webhook          webhook.py, with base64, HMAC, `compare_digest` and `datetime` as parameters.
--   Cli              cli.py: `cursor reset`, `dlq resend` and the exit codes of `main`.
--   Prelude, Tests   what the modules share, and concrete runs.
--
-- How they meet: Publisher calls Retry for each delay, Ulid for an idempotency key, and Dlq where it
-- gives up; Resend calls Publisher with the queue suspended. Subscriber calls Retry for each page, and
-- a CursorStore after each callback. Locks make a method one step, so that each state is passed on
-- from call to call.
--
-- Numbers: sequences, counts and times are natural numbers; a committed sequence and a timestamp of
-- a webhook are integers; a negative `start_from` is left out. A subscriber's `on_error`, where it
-- has one, returns. A pydantic model is a record of its fields, and its validation a function.
--
-- Not modelled: what the Web PubSub client does to connect; the other commands of cli.py; _http.py;
-- the drawing of keys in sealed mode; opening and closing of files, clients and databases; the texts
-- of error messages.

pub mod Prelude
pub mod Models
pub mod Errors
pub mod Exec
pub mod Retry
pub mod Ulid
pub mod World
pub mod Disk
pub mod Process
pub mod Dlq
pub mod Publisher
pub mod Resend
pub mod Subscriber
pub mod StateStore
pub mod Cursor
pub mod Webhook
pub mod Sealed
pub mod Cli
mod Tests
