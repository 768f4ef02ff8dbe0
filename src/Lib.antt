-- ===== src/Lib.antt =====
-- Koro: a C++ library of stackful fibers, a scheduler with one task queue per thread, and hooked system
-- calls that suspend the calling fiber (koro/), with the asynchronous logger that it uses (elog/).
--
-- A thread submits a callback or a fiber to one of the scheduler's task queues (Scheduler::submit). Each
-- worker thread takes tasks from its queue or steals from another (Scheduler::run, stealTask), locks and
-- resumes fibers, and sleeps in epoll_wait when there is nothing to do (IOManager::idle). A descriptor's
-- channel (Channel) is registered with the worker's epoll instance (EpollPoller); events become tasks, and
-- so do timers (TimerManager). The thread pool (ThreadPool) is separate. Log records are put into buffers
-- under a mutex, which one thread writes to the log file (AsyncLogging).
--
-- Prelude        shared notation, lists over the native numbers, Boolean tests, functions changed in one place,
--                sums, and the binary digits of bit operations.
-- Elog           elog/: Context for context.h and the records made by logger.cpp, FixedBuffer for
--                fixed_buffer.hpp, AsyncLogging for async_logging.cpp. push_locked is the lock section of
--                pushMessage, collect and write_round are the two halves of a round of threadWorker;
--                AsyncLogging/System puts callers and the worker together as steps.
--                LogFile is log_file.cpp and file_appender.cpp, Naming the names of the files; Appender and
--                Throwing are the same code where its calls of the C library and of the file system may fail.
--                Formatting is formatter.h, flags.h and timestamp.cpp, with the line that goes to the console;
--                Frontend is logger.h and logger.cpp, the logging statements of one thread; its Racing is
--                the end of the statements of many threads while asynchronous logging is shut down.
-- Timers         koro/timer.h, timestamp.h, timer_id.h and timer_manager.cpp. Entries is the ordered set,
--                Manager has register_timer, unregister_event and trigger_timer.
-- Scheduling     koro/scheduler.cpp, scheduler.h, task.h and the states and locks of fiber.h. Run is the
--                loop of the workers as a step relation: Move is one access of one worker to shared
--                memory, Step adds submission; its Stopping is stopping(), whose reads come one by one. Stealing is stealTask and submit as functions. Wakeup is
--                idle and tickle of koro/io_manager.cpp, for one worker and any number of callers; Waiting
--                is idle and tickle of the base class with the loop of stop, for one worker.
-- Fibers         koro/fiber.cpp and fiber.h on one thread: a machine whose contexts hold what is left to do,
--                with swapcontext, resume, yield and hold as the code nests them.
-- Events         koro/channel.cpp, epoll_poller.cpp and io_manager.cpp. Channel has handle_event; Poller
--                has update_channel and remove_channel, over the interface Epoll; Table is the table of
--                channels; Manager has bind_task_queue, register_event, unregister_event and
--                remove_channel.
-- Loop           koro/io_manager.cpp: the handling of the reported events in idle, and runAt, runAfter,
--                runEvery and cancellTimer, which join Events with Timers. A worker cancels its own timers.
--                Startup is Scheduler::init with onInit and the switches of koro/channel.h, and Creating the
--                new descriptors of koro/file_descriptor.h; Teardown is the destructors of TaskQueue and
--                TimerManager.
-- Hook           koro/hook.cpp. Blocking is do_io and close, composed of the operations of Events and Fibers;
--                Writing is the loop of write over a parameter for one call of do_io, and Wrapping is read,
--                write and accept over do_io itself; Descriptor is
--                setNonBlocking of koro/file_descriptor.h.
-- Pool           koro/inplace_function.hpp and koro/thread_pool.cpp.
--
-- Numbers: times, sizes and addresses are natural numbers; counters of 64 bits and masks of 32 bits wrap
-- where the source's do. Callbacks, fibers and tasks of the pool are known by numbers. Shared objects are
-- kept in functions from addresses. Memory accesses of different threads interleave and take effect in
-- one order.
-- Fuel: make_room of Events/Table takes fuel, and two units are enough, since one resize makes the table
-- large enough. run_rounds of Elog/AsyncLogging takes the number of rounds. The loop of write in Hook is
-- given the count of bytes as fuel; each round that goes on has written a byte. The loop of do_io may wait
-- for ever, and takes the number of its rounds, in Wrapping too. run of Fibers takes the number of steps as fuel; the length
-- of the rest of a fiber's function, and two, are enough for a resumption. digits of Elog/Formatting takes
-- one more than the number, which is divided by ten in each round. All other loops recurse on the data.
-- Parameters: epoll_ctl is the interface Epoll of Events/Poller, whose laws are those of epoll_ctl(2); fcntl
-- is the interface Fcntl of Hook/Descriptor. A system call that Hook wraps is a function, and so are whether a
-- fiber that waits in do_io is ever resumed and what the other fibers do until then: Harmless of
-- Hook/Blocking/Looping says what do_io relies on, that epoll refuses no change of the descriptor among it. The time zone is a function from seconds to a date. What the calls
-- of the C library answer to Appender is an argument, for each operation.
--
-- Not modelled: the memory of the stacks and setSchedulerFiber of koro/fiber.cpp, the lookup of the
-- system's functions in koro/hook.cpp, logging statements that begin while another computes its values, and
-- the tests, build files and singletons.
mod Prelude
pub mod Elog
pub mod Timers
pub mod Fibers
pub mod Scheduling
pub mod Events
pub mod Hook
pub mod Loop
pub mod Pool
