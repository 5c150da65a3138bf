-- ===== src/Lib.antt =====
-- Boost.GreenThread: M:N green threads over Boost.Coroutine and Boost.Asio. Green threads are
-- coroutines that a scheduler runs on a pool of worker threads; the synchronisation classes suspend
-- and resume green threads instead of kernel threads.
--
-- The parts, from the bottom up, and the modules that model them:
--
--   Spinlock      spinlock (include/boost/green_thread/detail/spinlock.hpp), with threads that lock it
--   Thread        thread_object (src/thread_object.hpp, src/thread_object.cpp): the state machine of
--                 a green thread, joining, interruption, thread-specific storage.
--     Object        the fields, one_step, join, join_and_rethrow, detach, the end of runner_wrapper
--     Interrupt     interrupt, pause's test, disable_interruption, restore_interruption, the queries
--     Tss           set_tss_data, get_tss_data
--     Local         thread_specific_ptr (include/boost/green_thread/tss.hpp) in one green thread
--     Strand        the activations of the threads that share a strand
--     Joining       any threads that join one another and stop, in any order
--     Guards        nested interruption guards
--     Handle        variables of the class thread (include/boost/green_thread/thread_only.hpp)
--     Group         thread_group (include/boost/green_thread/thread_group.hpp)
--   Scheduler     scheduler_object (src/scheduler_object.hpp, src/scheduler_object.cpp): the count of
--                 threads, the check timer, start and join.
--     Shutdown      threads that come and go, checks, and callers of join, in any order
--   Mutex         the four mutexes (include/boost/green_thread/mutex.hpp, src/mutex.cpp).
--     Outcome       what a call does to its caller and to other threads
--     Plain, System               mutex, and threads that call it in any order
--     Timed, Items, Timed.Waits   timed_mutex, its queue, and threads, timers and handlers in any
--                                 order
--     Recursive, RecursiveTimed   recursive_mutex and recursive_timed_mutex
--     Nesting       the recursive mutexes against the plain ones
--   SharedMutex   shared_timed_mutex (include/boost/green_thread/shared_mutex.hpp).
--     State, Shared, Exclusive, Upgrade, Convert   state_data, and the calls by kind of ownership
--     System        any threads that call it, by how many hold it in which way
--     Guard, Guards               shared_lock, and any number of them on one mutex
--     Exclusion, Wakeups
--   Condition     condition_variable (include/boost/green_thread/condition_variable.hpp,
--                 src/condition.cpp), with its threads, timers and handlers in Condition.Waits.
--     Monitor       threads that wait for a predicate under a mutex, over Mutex.Plain and Condition;
--                   Monitor.AnySteps is the same with condition_variable_any
--   Queue         concurrent_queue (include/boost/green_thread/concurrent_queue.hpp).
--     State, Push, Pop            the queue and its calls
--     History, Order, Bounds, Waits
--   Barrier       barrier (include/boost/green_thread/barrier.hpp).
--     Rendezvous    any threads that come to it, wait and leave, in any order
--   Future        futures (include/boost/green_thread/future/): detail/shared_state.hpp, promise.hpp,
--                 future.hpp, packaged_task.hpp, detail/task_object.hpp.
--     SharedState, Promise, Task, Settled
--     Void          shared_state<void>, promise<void>, future<void> and shared_future<void>, and
--                   their agreement with the general classes
--     Ref           the same of the specialisations for R &, against the general classes for R *
--     AtExit        set_value_at_thread_exit and set_exception_at_thread_exit
--     Handles       promises, futures and shared futures as counted pointers, and any program over
--                   them
--     Waiting       wait_for_any and wait_for_all: Any and All are their callers, the waiters on the
--                   futures and the threads that settle these, in any order; AsyncAny and AsyncAll
--                   are the same of async_wait_for_any and async_wait_for_all
--     Then          then: waiters that call a function, and the promises for its results; whoever
--                   settles the source runs them one by one, and others come in between
--   Executor      async_executor (include/boost/green_thread/future/async.hpp): the queue, the tasks
--                 and the threads of the pool, over Queue and Future.Task.
--     Function      async_function, with its one thread
--   UseFuture     the handlers of use_future (include/boost/green_thread/asio/detail/use_future.hpp)
--   Yield         the asio handler of yield (include/boost/green_thread/asio/yield.hpp,
--                 asio/detail/yield.hpp), with a thread that pauses in its calls.
--   Streambuf     streambuf_base (include/boost/green_thread/streambuf.hpp).
--     Areas, Delivery, Reading    the two areas, what is sent, and what is read
--   Base          the names, tests and list lemmas that the others share; Base.Tally and Base.Counts
--                 count flags that are set and pointers to one object.
--
-- A green thread runs until it calls pause or yield or blocks, but other worker threads run other
-- green threads at the same time, so what is atomic is what a lock protects: the spinlock mtx_ in
-- mutex.cpp, condition.cpp and thread_object.cpp, and a mutex (mtx_, the_mutex_, state_change,
-- m_mutex) in the classes that are built on one. A call that waits is cut where it gives the lock
-- up. Each stretch from one such point to the next is one function on the state of the object,
-- which returns the new state, how the call goes on (returns, answers, throws, waits), and what it
-- has done to others (threads resumed, timers cancelled, condition variables notified). A function
-- whose name ends in _woken is the stretch behind a wait. The modules System, Waits, History,
-- Joining, Shutdown, Monitor, Guards, Rendezvous, Waiting, Handles, Then, AtExit, Group, Local, Strand,
-- Spinlock, Executor and UseFuture run any such stretches in any order, and their relation Reach, From
-- or Run, or a run over a list of events, says which states arise.
--
-- An interruption shows where a resumed thread runs on: in mutex and timed_mutex pause may then throw,
-- and a theorem that holds without interruptions only says so; the pause of a call with yield may throw
-- too, and Thread.Interrupt has the test itself. In the other modules threads that wait are not
-- interrupted. In Future.Waiting, throws says which waiters on a future throw: such a waiter ends the
-- loop that calls them. The programs of Future.Handles use neither then nor the forms for a thread's
-- exit.
--
-- How the data correspond: a thread, a timer, a mutex, a waiter and an exception go by numbers; a
-- null thread_ptr_t is none; std::deque and std::map are lists; size_t and unsigned are natural
-- numbers that wrap at 2^64 and 2^32 where the source counts. An assert of the source is a Boolean
-- of the stretch, sound. The condition error that a call throws is a result and not an exception of
-- the model.
--
-- Loops over sequences are structural, a loop that waits is cut at its waits, the write loop of
-- streambuf runs on as much fuel as there are bytes to write, since every write that does not fail
-- takes at least one, and one_step's loop runs over the list of states that the coroutine hands
-- back, with no result when that list ends while the state is still running.
--
-- What is outside: asio's io_service and its strands, which run their handlers one at a time in the
-- order in which they were posted, the timers (a timer that is armed expires at any
-- later time or is cancelled, and its handler runs once), the sockets (the two calls of a stream
-- that streambuf uses are parameters, with what asio documents of them as WriteLaws and ReadLaws),
-- the coroutines, and the clocks, whose passing shows as a wait that answers timeout. In System of
-- SharedMutex the waits on green condition variables may end at any time, which covers every way of
-- waking; callers release or convert only what they hold.
--
-- Not modelled: the input and output streams, greenify, the exception classes, sleep_rel of
-- thread_object, foreign_thread_pool, notify_all_at_thread_exit, and the timed forms of the
-- predicate waits. The streams are glue over sockets; the others are clients of the parts above.
-- pop_some of the queue and the assignment of a future to a shared_future do not compile when they are
-- instantiated.
pub mod Base
pub mod Spinlock
pub mod Mutex
pub mod SharedMutex
pub mod Condition
pub mod Queue
pub mod Barrier
pub mod Thread
pub mod Scheduler
pub mod Future
pub mod Executor
pub mod UseFuture
pub mod Yield
pub mod Streambuf
