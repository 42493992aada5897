-- ===== src/Lib.antt =====
-- zarabot, a trading bot for the Moscow Exchange: a model of its decisions and of its database.
--
-- In each cycle the bot asks its strategies for signals, sends each signal through the risk gate,
-- and places an order for the lots that the gate approves; it evaluates each open position for an
-- exit. Everything that must survive a restart stands in SQLite, each table with one owning module;
-- a halt flag stops entries, and the session guard says when the exchange is open.
--
-- Which file models which part:
--   Models, Models/*           zarabot/models.py: enumerations, dataclasses, their checks
--   Config                     zarabot/config.py: the settings that the modelled code reads
--   Errors                     the exceptions that the modelled code raises
--   Risk/Sizing, Risk/Gate     zarabot/risk/sizing.py (size_position) and gate.py (check)
--   Lifecycle                  zarabot/lifecycle/exits.py (evaluate)
--   Db/Store                   zarabot/db/connection.py (transaction) and the tables of migrations/
--   Db/Connection              the same function on the connection: nested calls, and a BEGIN, COMMIT
--                              or ROLLBACK that SQLite refuses; owned_transaction is its transaction
--   Db/Orders                  zarabot/db/orders.py
--   Db/Positions               zarabot/db/positions.py; open_position is its open
--   Db/StopOrders              zarabot/db/stop_orders.py
--   Db/Cooldowns               zarabot/db/cooldowns.py
--   Db/TradingDays             zarabot/db/trading_days.py
--   Db/Signals                 zarabot/db/signals.py; record_signal is its record
--   Db/JobRuns, Db/Snapshots   zarabot/db/job_runs.py and snapshots.py; list_daily is list_for_period
--   Db/Preserved, Db/Apart     what each call of the order path on the tables keeps
--   Market, Market/Session     zarabot/market/session.py: refresh and calendar, and the queries
--   Clock                      zarabot/clock.py (trading_days_between)
--   Halt                       zarabot/state/halt.py
--   Execution/Desk             zarabot/execution/orders.py: the database, the broker and fresh keys
--                              together (Desk), _write and _halt_on_db_failure
--   Execution/Stops            the stops at the exchange: _place_stop and its callers
--   Execution/Entries, Exits   open_position; close_position, close_executed_stop, _finish_close
--   Execution/Recovery         resolve_unfinished, with _apply_discovered_fill and _apply_terminal_exit
--   Execution/Halting, Closes  failed writes; the end of a close in _finish_close
--   Execution/Outage           a broker that cannot be reached
--   Execution/Operations       the operations in any order; Execution/Kept carries a predicate on the
--                              database and one on the broker through each of them
--   Commissions                zarabot/ops/commissions.py: _resolve and backfill
--   Reconcile/Sales            zarabot/broker/reconcile.py: _resolve_sale and _close_externally
--   Reconcile/Feed, Invented   what a close without the broker's holding rests on
--   Reconcile/Holdings         the holdings against the local positions, ticker by ticker
--   Reconcile/Stops            _stop_adjustments, _keep_stop, _is_mispriced and _price_increments
--   Reconcile/Run              _persist and reconcile
--   Sandbox/Exchange, Fills    sandbox/exchange.py: the state of SimulatedExchange and its bars;
--                              post_market_order and _apply_fill
--   Sandbox/Firing, Advance    _fire_stops and advance; Sandbox/Broker: the other methods, and the
--                              exchange as the broker of the order path
--   Sandbox/History            bars and operations of the bot in any order
--   Strategies                 zarabot/strategies/momentum.py and volume_breakout.py
--   Strategies/Averages        zarabot/strategies/rsi_reversion.py and ma_crossover.py
--   App/Shutdown               zarabot/app/shutdown.py
--   App/Executions             zarabot/app/loops.py: _close_executed and _stop_is_live
--   Pnl                        zarabot/pnl.py: realised, unrealised, bot_equity
--   Base                       lists, dicts, integers, decimals and the monad that the parts share
--   Samples, */Examples        concrete data, and the theorems applied to it
--
-- How the code is read. A coroutine that works on the database is a function from a Store to a
-- result or an exception and the Store after it (Base/Exec); the Store holds the tables, what the
-- clock reads, the alerts sent, and a schedule that says of each transaction to come whether SQLite
-- fails it. A row is kept as the dataclass that its owner reads it into. The constraints of the
-- schema that an owner relies on (unique keys, one open position for a ticker, one standing stop
-- for a position, references) are part of its inserts. What an operation can write is a step
-- relation on the tables (*/Writes), and statements on sequences of calls go by induction over its
-- steps.
--
-- A transaction of the Store is refused at its start or not at all, and a nested call is part of the
-- body that it joins. That a COMMIT can be refused as well is modelled by Db/Connection alone, on the
-- bodies that are made of statements, nested calls and caught errors: the transaction that it leaves
-- open makes the ones after it fail, which is a schedule of the Store in which they all fail.
--
-- Order execution. The broker is a record of operations on a state of any type, so a statement on
-- the order path holds for every broker, one that fails at any call too. The locks of orders.py let
-- one operation run at a time, and each is one step here; the clock stands still during it, except
-- for the pauses of a shutdown. A new key is the next text of a supply. An exception keeps what was
-- written before it, as in the code. An except clause is catch with a test of the exception. The
-- percentage of the slippage is compared with both sides multiplied by the reference price, which
-- is positive there.
--
-- The reconciliation changes the local rows ticker by ticker and then judges the stops, which it
-- only reports. An adjustment, a dict of texts in the code, is a value of a data type with what the
-- code writes into the dict. The dicts of the code are pairs in the order of insertion (Base/Dict),
-- and sets are lists of which only the members are asked.
--
-- The simulated exchange has the methods of the broker client over historical bars, and the order
-- path runs on it through the same record of operations as on any broker. It has no get_operations
-- and no get_order_state_by_broker_id: the real calls stay in place there, and are parameters.
--
-- Numbers. A Decimal is a signed coefficient over a power of ten. Sums and products are exact:
-- their rounding beyond 28 digits is not modelled. A quotient (Base/Decimal/Quotient) has 28
-- digits, the last one rounded half to even; the search for its places has 28 plus the divisor for
-- fuel, which is enough (Base/Decimal/Fitting). No other definition needs fuel: every loop goes
-- over a list or a count. A datetime is an instant in microseconds and whether it has a timezone.
--
-- Outside the program, and so parameters: SQLite's failures, the clock, the time zone database, and
-- what the broker answers.
--
-- Not modelled: log records, text encodings of columns, formatting, I/O, the broker client, which
-- wraps a package outside the repository, market data, the startup, the loops but for the executed
-- stops, the other strategies, the daily loss, the schedule of the simulated exchange and Telegram:
-- an alert is a value in the outbox, and sending it never fails here.
pub mod App
pub mod Base
pub mod Models
pub mod Config
pub mod Risk
pub mod Errors
pub mod Lifecycle
pub mod Db
pub mod Halt
pub mod Market
pub mod Clock
pub mod Pnl
pub mod Execution
pub mod Commissions
pub mod Reconcile
pub mod Sandbox
pub mod Strategies
pub mod Samples
