-- ===== src/Lib.antt =====
-- The algorithms and containers in C of MyLittleTool.
--
-- The C part of the repository is a set of small components that have their own state and
-- hardly call each other:
--   * Sort/ holds one file per sorting algorithm. Each function gets an array of `int` and its
--     length, and sorts it in place.
--   * hash_table.c and hash_table.h are a hash table with chains. The functions for its keys
--     and values come from its user; four sets of them are in the header.
--   * co/timewheel.c is a timer wheel: five arrays of slots, each a doubly linked list of
--     timers, and a tick that calls the timers of one slot and moves those of the higher wheels
--     down.
--   * co/coroutine_ctx.c and co/process_scheduler.c are coroutines: each has its own stack or
--     runs on a shared one, and the scheduler has the array of those that started each other.
--   * co/Reactor.c keeps a table of sockets by descriptor beside a timer wheel.
--
-- Files:
--   * Prelude and its children: the libraries' names, Boolean tests and lists over the native
--     naturals, integers (Prelude/Int), 32-bit words and their exclusive or (Prelude/Word),
--     calls that end in a result or a fault (Prelude/Outcome), signed results (Prelude/Signed),
--     lists as arrays of cells (Prelude/Cells), and counting loops with the rule for their
--     invariants (Prelude/Loops).
--   * Sort/Array: an array of `int`s as a list of integers, with checked access. `load` and
--     `store` outside the array are the fault `out_of_bounds`; `swap_elems` is the macro
--     `Swap`. It also says what a sorting function promises (`Sorts`): the result ascends, and
--     every value occurs in it as often as in the input.
--   * Sort/Insertion: Sort/insert_sort.c.
--   * Sort/Exchange: Sort/bubble_sort.c and Sort/select_sort.c.
--   * Sort/Heap: Sort/heap_sort.c.
--   * Sort/Merge: Sort/merge_sort.c, the merge and the recursive version; Sort/Merge/Rounds the
--     other version. The memory that they allocate is an argument, of any content.
--   * Sort/Quick, Sort/Quick/Repeated, Sort/Quick/Inward: Sort/quick_sort.c.
--   * Sort/Counting: Sort/count_sort.c, and the counting pass that it shares with
--     Sort/radix_sort.c: Sort/Counting/Tally has the positions, Sort/Counting/Pass and
--     Sort/Counting/Moved what a pass does, Sort/Counting/Signed the loops over all entries.
--   * Sort/Radix: Sort/radix_sort.c; Sort/Radix/Digits and Sort/Radix/First its two sorts.
--   * Sort/Agreement: an array has one ascending rearrangement, so the sorts agree.
--   * Hash: the records and operations of hash_table.c. Hash/Chain has the walks along a chain,
--     Hash/Valid when a table is well formed and the map it stands for (`contents`),
--     Hash/Growth, Hash/Insert, Hash/Del and Hash/Clear one operation each, Hash/Roundtrip
--     searches after a change, Hash/Trace sequences of calls against the same calls on a map,
--     Hash/Iterate the iterator, and Hash/Functions the hash and compare functions. What the
--     table relies on is `IsLawful`: `comp_` decides equality of keys, and a dumped key equals
--     the key.
--   * TimeWheel: the operations of co/timewheel.c on a store of timers. TimeWheel/Store and
--     TimeWheel/Lists have single accesses and a timer in an empty slot, TimeWheel/Links the
--     doubly linked lists, TimeWheel/Due the arithmetic of slots and carries, TimeWheel/Alone,
--     TimeWheel/Rounds and TimeWheel/Firing the life of one timer, TimeWheel/Add the insertion
--     of a timer, and TimeWheel/Lost timers that are not called when they are due. `_AddTimer`
--     is `add_timer_inner`, `_SwitchOthWheel` is `switch_oth_wheel_inner`.
--   * Coroutine: the operations of co/coroutine_ctx.c and co/process_scheduler.c, and the calls
--     of a program as the relation `Reach`. Coroutine/Stack has the shared stacks and what is
--     copied, Coroutine/Switch a start and the end of a routine, Coroutine/Create a new
--     coroutine, Coroutine/Nested coroutines that start others, by a script of what each does,
--     and Coroutine/Saved what every sequence of calls keeps. `RoutineStartFun` is
--     `routine_begin` and `routine_end`, `coroutine_swap` is split at its jump into `swap_out`
--     and `swap_in`. The jump (co/coroutine_ctx_swap.s) is modelled by the saved instruction
--     pointer only.
--   * Sort/Driver: Sort/main_sort.c. Sort/Driver/Ascends and Sort/Driver/Drawing have the two
--     parts of `Check`, Sort/Driver/Marks the loop of `main` over the sorting functions, and
--     Sort/Driver/Ordered one of the arrays that it sorts.
--   * Reactor: co/Reactor.c, its table of sockets and SetSocketBlock (Reactor/Blocking).
-- A definition has the name of the C function; a loop or a loop's body has a name of its own
-- with the code in its comment, and a recursive helper `_f` of the source is `f_range`.
--
-- Bounds and fuel: a `while` and a recursion run on fuel, and out of fuel is the fault
-- `out_of_fuel`. The fuel is one more than the length of the array for the recursions, whose
-- ranges shrink, and for the loops, whose indices move towards each other; every theorem that
-- says a function ends without a fault shows that this is enough. A `for` whose bounds do not
-- change in its body is a counting loop. `int` arithmetic on indices is on naturals below the
-- array's length; where the source computes an index beyond it (heap_sort.c, merge_sort.c), and
-- on entries in count_sort.c and radix_sort.c, an overflow is the fault `overflow`. The digit
-- loops of radix_sort.c run on 11 and 12 rounds, which the ten digits of an int allow. A failed
-- `assert` is the fault `assert_failed`; a NULL array is not modelled. An access through NULL
-- is the fault `null_pointer`. The C string functions are modelled on the bytes before the
-- terminating 0. The 32-bit counters of the hash table keep their wrap-around, and the theorems
-- that need it ask for fewer than 3 * 2^29 entries, where none wraps. In the time wheel the
-- walks and the recursion of `_AddTimer` run on fuel, of which two rounds are enough for a slot
-- with one timer, and the outer loop of `Tick` on as many rounds as the clock is ahead;
-- `malloc` there always succeeds, a handler does not touch the wheel, and a call of it is
-- recorded. The outcomes of the `malloc`s of the operations on a hash table are arguments of
-- the operations; a `malloc` of a dump function, of the sorts and of the coroutines succeeds.
--
-- Not modelled: the C++ parts, the copies of librabbitmq, spdlog and a JSON library, the rest
-- of the assembly, the release of memory by the iterator of the hash table, and programs that
-- print or measure time.
pub mod Prelude
pub mod Sort
pub mod Hash
pub mod TimeWheel
pub mod Coroutine
pub mod Reactor
