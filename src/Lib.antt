-- ===== src/Lib.antt =====
-- Locust: the core of the load testing tool, as pure functions over explicit states.
--
-- The program. A master (or a local) runner asks the users dispatcher how many users of which class
-- each worker should run, one dispatch iteration after the other; workers join and leave while a
-- dispatch runs, and the dispatcher then distributes all users anew. Every response that a user
-- gets is logged in statistics entries, which the workers send to the master as stripped reports,
-- and which the master merges into its own.
--
-- The modules.
--   Base             Boolean tests, list functions over native numbers, and Python dicts as
--                    association lists in insertion order (Base/Dict).
--   Dispatch         locust/dispatch.py.
--     Kl             `_kl_generator`, the draws by weight. A heap is a list whose least tuple is
--                    looked for. The first component of a tuple, a floating point number, is not
--                    computed: a `Divergence` compares two of them, with the law that a name with
--                    draws left of its quota comes before one without. Kl/Exact gives a
--                    `Divergence` by exact arithmetic.
--     Users          user classes, worker nodes and the table of users on workers.
--     Workers        `_sort_workers`.
--     Spawn          `_user_gen`, `itertools.cycle` and `_distribute_users`; the state that these
--                    share is the record `Pool`.
--     Dispatcher     `UsersDispatcher`: its attributes, `__init__`, `new_dispatch`, `add_worker`,
--                    `remove_worker`, `_prepare_rebalance` and the two iterations. The generator
--                    `_dispatcher` is a state machine over its suspension points
--                    (Dispatcher/Generator), so that a worker can join or leave between two
--                    resumptions. Dispatcher/Total and Dispatcher/Shown are about whole
--                    dispatches, as the runners start them.
--   Runner           locust/runners.py: the states, and the workers as the master knows them.
--     Master         `MasterRunner`: its attributes, `start`, `stop`, `quit` and `check_stopped`. It
--                    owns a `Dispatcher` while a test runs, and the statistics that the workers
--                    report. Master/Messages has a function for each message of `handle_message`,
--                    Master/Heartbeat one round of `heartbeat_worker`. Master/Invariant says what a
--                    valid master is; Master/Indexes has the calls as a step relation.
--     Users          `user_classes_count`, `spawn_users` and `stop_users` of `Runner`, and the ramp
--                    from the users that run to those that are requested.
--     Local          `LocalRunner`: `_start`, which follows the tables of its own dispatcher, and
--                    `stop`.
--     Shape          `shape_worker` of `Runner`, which follows a load shape.
--     Worker         `WorkerRunner`: `start_worker`, `stop` and `handle_message`.
--   Stats            locust/stats.py.
--     Rounding       `bucket_response_time`, of floats and of whole milliseconds.
--     Quantiles      `calculate_response_time_percentile` and `median_from_dict`.
--     Entry          `StatsEntry`. Entry/Represents says what an entry stands for: a list of logged
--                    requests and failures.
--     Requests       `RequestStats` and `StatsError`: logging, the report of a worker
--                    (`on_report_to_master`) and its merge on the master (`on_worker_report`).
--   Markov           locust/user/markov_taskset.py: the validation by the metaclass of
--                    `MarkovTaskSet`, the search for unreachable tasks (Markov/Search, with one unit
--                    of fuel for each task), the weighted lists, and `get_next_task`. What `random.choice`
--                    picks is an argument, an index below the length of a list that is not empty.
--   Sequence         locust/user/sequential_taskset.py: the tasks that the metaclass collects and the
--                    order in which a `SequentialTaskSet` runs them.
--   Tasks            locust/user/task.py: the tasks that are collected for a user class or a task set,
--                    and the filter by tags, with the dict of the tasks that were checked.
--   User             locust/user/users.py, locust/user/task.py and locust/event.py: a user that runs, in
--                    one greenlet. Its state and what has happened to it are the record `World`;
--                    User/Loop is `TaskSet.run` with its handlers and nested task sets, User/Run is
--                    `User.run`. What the user's tasks, hooks and listeners do, and when another
--                    greenlet calls `stop` meanwhile, is the parameter `Setup`: a `Behaviour` for
--                    each call and each sleep, in their order. An exception is an `Outcome` here. The
--                    fuel bounds the rounds of the loops, as a user need not end.
--   Client           locust/clients.py: the response of `HttpSession` in a with-block, and what a
--                    request reports; Client/Fast is that of locust/contrib/fasthttp.py. The
--                    libraries `requests` and `geventhttpclient` are parameters: what a request comes
--                    to. Client/Counted has the listener that adds a report to the statistics.
--   Env              locust/env.py: the checks of the user classes, the filter of their tasks and
--                    `assign_equal_weights`; whether a task is callable is an argument of it.
--   Util             locust/util: `parse_timespan` and `memoize`.
--   Wait             locust/user/wait_time.py: `constant_pacing`.
--
-- Conventions. Class names, worker ids, entry names and methods are numbers, in the order of the
-- strings; `host` is the part of a worker id before the first "_". Weights and response times are
-- whole numbers, but for the float that is bucketed in microseconds; a spawn rate is in thousandths,
-- and `new_dispatch` raises its ZeroDivisionError where it is 0; and a time is in microseconds, an
-- argument of what reads the clock. Task sets are finite trees: none is nested in itself. But for
-- `User`, `Client` and the checks of `Env`, an exception is `none`, and so is a loop out of fuel. The fuel is part of the definitions: one unit for each user that an iteration can add,
-- and for a whole dispatch one unit for each user between the current and the target count, and one
-- more, or three more where a rebalancing may be pending, as in the master's `start`. A call of a
-- runner runs to its end before the next one: what other greenlets do while it waits is left out.
--
-- Not modelled: sleeping between iterations and the list of their durations, the history and the
-- printing of statistics, CSV and HTML reports, the shape greenlet's place among the others, the
-- interleaving of greenlets, the connections of the runners and what they do when these break, a
-- greenlet that goes on after it was killed, sessions of HTTP but for what they report, the web
-- interface, the command line and the message transport. These are I/O, calls of gevent and other
-- libraries, or glue.
--
-- The dispatcher is modelled where some class without a `fixed_count` has a positive weight for the
-- theorems that say how many users run; `_kl_generator` yields `None` for ever without one.
pub mod Base
pub mod Client
pub mod Dispatch
pub mod Env
pub mod Markov
pub mod Runner
pub mod Sequence
pub mod Stats
pub mod Tasks
pub mod User
pub mod Util
pub mod Wait
