-- ===== src/Lib.antt =====
-- The kernel of a preemptive operating system for a 32-bit RISC-V microcontroller, and the parts of
-- its board package that hold state of their own.
--
-- Parts, and the files that model them (paths from the root of the repository):
-- - Config: the constants of core/src/config.rs.
-- - Bitmap, Queue, Buffer: the containers BitMap, Queue and Buffer of core/src/data_type. Queue.Window
--   holds the lemmas on rings, Queue.Refine relates a queue to the list of its entries.
-- - TaskList: the list of task ids of core/src/kernel/list.rs, over an interface HeaplessVec for the
--   vector of the package heapless, whose documented behaviour is the interface's laws.
-- - Kernel: the task control blocks (core/src/kernel/tcb.rs), the statics and the ids
--   (core/src/kernel/global.rs) as one record. Kernel.Stack is the first frame of a task,
--   Kernel.Sched the tick, the sleepers and the choice of the next task, Kernel.Launch the start
--   (core/src/kernel/sched.rs), Kernel.Task the calls of core/src/kernel/task.rs, and
--   Kernel.Invariant what holds of the lists between calls. Kernel.Invariant.Moves has one lemma for
--   each single write from which the calls are built, and the calls' theorems apply those.
-- - Arch: the assembly of core/src/arch/riscv.rs over a model of its instructions. Arch.Frame holds
--   the lemmas on the words of a frame, Arch.Context the saved and restored registers, Arch.Start the
--   first task, Arch.Handler the trap handler as a whole. What the compiler makes of the dispatch and
--   of `next_tcb` is a parameter there; Kernel and Trap model what those two mean.
-- - System: the calls of Task, down and up of semaphores, notify of condition variables, the wake-up by
--   a message queue, the switch and the timer interrupt in any order from reset on, with tasks made by
--   create and create_raw before the launch; System.Safety is on all states that they reach, and
--   System.Running, Leaving, Arriving, Waking, Timer and Boot have one lemma for each kind of call.
--   The calls that take or give back a mutex are not among these: an unlock can leave the ready list
--   out of order, which the invariant excludes. Nor is notify_all.
-- - Sync: semaphore, mutex with priority inheritance, condition variable and barrier
--   (core/src/kernel/sync.rs). Ipc: the message queue (core/src/kernel/ipc.rs). Async: the executor
--   of futures (core/src/kernel/async_rt.rs); Async.Heap has the lemmas on its heap of timers,
--   Async.Timers, Expiry and Wakeup what becomes of a timer, Async.Turns and Rounds the polls of a
--   round, Async.Runtime the executor's task.
-- - Trap: the dispatch of interrupts (boards/esp32c6/src/trap.rs), over the kernel's tick.
-- - Board: the timer and the clocks over the registers of the chip (boards/esp32c6/src/bsp.rs);
--   Board.Alarm has the timer interrupt, Board.Clocks the repair. Trap.Fault has the
--   exceptions and Trap.Entry the way to all of these.
-- - Radio: the task handles of the radio packages (boards/esp32c6/src/rtos_adapter.rs).
-- - Lcd: the display's terminal, in Lcd.Render its way to the panel, in Lcd.Chars the characters that
--   wait and in Lcd.Task the display's task (boards/esp32c6/src/lcd.rs). Shell: the input ring, the
--   line editor, the clock and, in Shell.Commands, the commands (boards/esp32c6/src/shell.rs).
-- - Prelude: shared helpers; Tests: the theorems at concrete inputs.
--
-- How the code is modelled. A call is a function from the state to the state and the result; a run
-- that panics, follows a null pointer, indexes out of range or reads memory that was never written
-- is a `stop`. The code runs its critical sections with interrupts off, so one section is one step.
-- A switch to another task (`yield_task`, the `ecall` of core/src/arch/riscv.rs) is `next_tcb` if the
-- scheduler runs, and nothing otherwise; what a call does after its switch is a function of its own,
-- on the state that it then finds. Arrays of the statics are functions of the index, and ids from a
-- caller are tested. Numbers of 32 bits wrap as the build profiles set (no overflow checks); a
-- priority is one byte and is never computed with. The count of a semaphore, an i32, is given by its
-- bits. A closure is given by a number that names it.
--
-- Fuel: `wake_up_sleepers`, `notify_all` and `wake_expired` take the length of the list at the start,
-- since each round takes an entry off or goes past one; `sift_up` and `sift_down` take the index and
-- the length of the heap, since the index falls, or grows and stays below the length. `skip_missed`
-- takes 101 rounds, since the source leaves the loop once more than 100 ticks were missed.
--
-- Not modelled: the set-up of the board, the display and the radio by packages, printing, the fonts,
-- and the endless loops of the tasks.
pub mod Arch
pub mod Async
pub mod Bitmap
pub mod Board
pub mod Buffer
pub mod Config
pub mod Ipc
pub mod Kernel
pub mod Lcd
pub mod Prelude
pub mod Queue
pub mod Radio
pub mod Shell
pub mod Sync
pub mod System
pub mod TaskList
pub mod Tests
pub mod Trap
