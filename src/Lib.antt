-- ===== src/Lib.antt =====
-- A model of the order path of GoldFlow (the Python package `app/`), a gold trading bot: which signals
-- may become orders, how large they are, and how an order is sent once and protected.
--
-- The parts and their files:
--   Base       numbers, lists, dictionaries, exact decimals, lists of guarded reasons, and actions that
--              raise, with the rules of Ensures by which the proofs follow a method. `Error` stands for the exceptions of app/domain/errors.py and for the built-in ones.
--   Domain     Enums is app/domain/enums.py, Models and Orders are app/domain/models.py, each value with the
--              checks of its `__post_init__` as a function `make_*`. StateMachine is
--              app/domain/state_machine.py: Transitions is about one call, Lifecycle about a whole trade.
--   Brokers    Port is app/brokers/base.py; Avoids classifies its calls. Symbols is
--              app/brokers/symbols.py; the error of an ambiguous name does not list the names. Mock
--              is app/brokers/mock.py: its state, with Reads for its reads, Checks for `validate_order`, Trading for
--              `_place` and Closing for what changes a position afterwards. Retry is app/brokers/retry.py.
--   Risk       Models, Mode, DemoValidation, Calculator, CircuitBreaker and Gates are the files of the
--              same names (in snake_case) under app/risk/.
--   Execution  Idempotency and Models are app/execution/idempotency.py and models.py. World, Protection,
--              Records, Submission, Decision, Executor and Recovery are `TradeExecutor` of
--              app/execution/executor.py: Executor is `execute` up to the sized request, Decision goes on
--              to the risk gates and the claim, Submission from the claim to the outcome, Protection is
--              `_verify_or_repair_protection`, Records is `_outcome_from_record`, and Recovery is
--              `reconcile_unknown` and `cancel_pending_entries`. Positions is `PositionManager` of
--              app/execution/positions.py, and Reconciliation is app/execution/reconciliation.py. SqlStore
--              is app/execution/sqlalchemy_idempotency.py, with Json and Payloads for what
--              is stored and Attempts for the rows. Ledgers has the entries of Reconciliation.
--              SingleSend is the invariant of the submissions.
--   Market     Candles, Structure, Sessions and News are the files of the same names under app/market/;
--              Swings is the first half of structure.py, and Sort a stable sort.
--   Signals    Engine and Confidence are app/signals/engine.py and confidence.py.
--   Workers    Lease is app/workers/lease.py.
--   Tests      concrete inputs.
--
-- How the code corresponds:
--   * A method that may raise and keeps state is an action `Exec S A`, a function from a state to a
--     result and a state; what was written before a raise stays written. `World` is the state that the
--     executor shares with its collaborators: the trace of the broker's calls, the idempotency records
--     and the circuit states.
--   * A broker adapter is a record of answers, each a function of all calls made before, so a broker
--     that changes its mind, times out or fails at any point is one of its values. The clock and the
--     digest of hashlib are fields of it.
--   * The mock broker is one more state with actions on it. Its clock is a function of the number of
--     calls of it.
--   * The two loops of `reconcile` on positions are those on orders with other names, which a record
--     `Kind` holds; the ledger is the in-memory one.
--   * The executor holds its lock for a whole method, so a method is one step of a history; histories
--     are lists of steps by any number of executors, one after the other.
--   * A run of `if test: reasons.append(text)` is a list of pairs of a test and a text.
--   * A loop is structural recursion: the visibility loop on the attempts that are left, the others on
--     their lists. Only the digits of the mock's ticket numbers are written on fuel, one round more than
--     the number, which is enough by digits_enough of Brokers/Mock/Digits.antt.
--   * Timestamps are whole microseconds since 0001-01-01 UTC, dates whole days, durations microseconds.
--     `Decimal` is an exact rational, where Python rounds quotients and long results to 28 digits.
--     `str.upper` is the ASCII one. `hmac.compare_digest` raises on a text outside ASCII.
--   * A row of execution_attempts has no length limits on its columns (String(255), String(128) and
--     String(64) in app/db/models/entities.py), so the database's error for a longer text is not here.
--
-- Not modelled: the SQL stores but that of the idempotency records, the MetaTrader 5 adapter, the
-- worker service, API, notifications, observability, configuration, indicators, strategies and the
-- backtest, which are I/O, float arithmetic or glue around this path; app/market/symbols.py, a
-- second ranking of symbols; and app/brokers/serialized.py, one lock around every call. Two
-- executors inside one method at a time, in two processes, are not interleaved here.
pub mod Base
pub mod Domain
pub mod Brokers
pub mod Risk
pub mod Execution
pub mod Market
pub mod Signals
pub mod Workers
pub mod Tests
