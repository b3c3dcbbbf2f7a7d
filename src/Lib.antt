-- ===== src/Lib.antt =====
-- Verification of the C programs of this repository: exercises and small systems, each in a folder
-- of its own, which share no code but the idioms. The development models those with logic of their own.
--
-- The parts:
-- - Base: the names that the other modules share, C's `int` (Int), lists as arrays (Lists).
-- - Window: lemmas on arrays in a ring, shared by the queues.
-- - TaskQueue (pthread_pool/queue.c): `queue_init`, `queue_is_empty`, `queue_is_full`, `queue_en`,
--   `queue_de`; Fifo is the queue they stand for, Inv the invariant, Refine the refinement. A client
--   is a list of calls.
-- - Tree (tree/01tree.c): the students' search tree; Order has the list that a tree stands for, Edit
--   insertion, Search search and deletion, Turns and Balance the two turns and `tree_balance`, Height
--   the height, Print what is printed, Distroy `tree_distroy` on the heap of Llist. `tree_balance`
--   takes fuel; one more than the number of nodes is enough. `tree_distroy` takes one more than the
--   number of levels.
-- - Base64 (高编项目/base64.c): `base64_encode`, `base64_decode` and their string helpers; Bits has the
--   shifts and masks as arithmetic.
-- - Relay (fsm/fsm.c): the states, `fsm_init` and `fsm_drive`; what read(2) and write(2) answer at a
--   drive is an argument. Inv has the invariant and what the calls may answer, Copy runs of drives.
-- - Gomoku (gomoku/gomoku.c, gomoku/main.c): `init`, `writein`, `iflegal`, `ifwin` and a round of the
--   game; Line has the eight counting loops, Win the verdict, Turn the outcome of a round.
-- - TokenBuckets (apue/pthread/11tbf_thread/tbf.c): the table of buckets, `tbf_init`,
--   `tbf_fetch_token`, `tbf_return_token`, `tbf_destroy`, `tbf_destroy_all` and a round of `thr_fun`;
--   Slots has the table, Purse and Step one step seen from a bucket, Rate runs of
--   steps. A run is a list of steps in any order.
-- - Pool (pthread_pool/pool.c): the workers, the admin thread and the clients as steps on the pool,
--   over the queue of TaskQueue; Count counts workers, Sound and Admin have the invariant of the
--   counters, Handed and Tasks the way of the tasks, Run runs
--   of steps. A step of a waiting worker is its wakeup.
-- - Alarms (高编项目/alarm_scheduler.c): the table of periodic tasks, `handle_sigalrm` and
--   `alarm_scheduler_add_task`; Period follows a task over signals.
-- - Stack (stack/02arr/stack.c): the stack of six ints; Items has what it stands for. A client is a
--   list of calls.
-- - Scan: loops that read a string from the left, used by Calc.
-- - Calc (stack/04repolish/main.c): `get_priority`, `infix_to_postfix`, `repolish` and what `main` makes
--   of them; Expr has the expressions, Rounds, Eval and Exact are about `repolish`, Operators, Reading,
--   Pending and Convert about `infix_to_postfix`. A round takes at least one character, so fuel for
--   each character is enough.
-- - Llist (hash_table/01hash/llist.c): the doubly linked ring on a heap. Llist/Links has the facts about
--   the two link fields, Llist/Ring the ring of a handle (Ring/Steps runs the assignments that link a node in and
--   take one out, Ring/Change says what they make of a ring), Llist/Create, Insert, Find, Remove, Delete and Destroy the
--   operations. A walk takes fuel, one step for each node and one for the end.
-- - Htable (hash_table/01hash/hashtable.c and the hashes of main.c): the table over Llist, on the same heap. Htable/Bucket
--   has an insertion in its bucket, Frame what it leaves of the others, Table the whole call, Create and Make the
--   loops that free and make the buckets, Handle creation and destruction, Hash the hashes.
-- - Anytimer (apue/16anytimer/anytimer.c): the table of timers, its handler and the calls that set and destroy
--   timers; Anytimer/Pass is a run of the handler, Calls the calls of one slot, Ring a timer from the call that sets it.
-- - Recipes (c+ds/recipe.c, recipe.h and main.c): the recipes and their list on the heap of Llist. Lists
--   models the operations on the list, Files the two on the file. Chain is what a whole list is, Strings what `strncpy`
--   copies; Rows, Make, Find, Remove, Taken, Delete, Free and Files/RoundTrip are the proofs. Menu models
--   the functions of main.c that read from the terminal: Menu/Typed is what is typed, Menu/Entries, Menu/Rounds,
--   Menu/Added, Menu/Answers and Menu/Reload are the proofs. A walk takes fuel, one step for each node and one
--   for the end, and a loop that reads entries as many steps as the array has places.
-- - Workers (高编项目/thread_pool.c): the gateway's thread pool. Ring is its ring of tasks over Window, System the pool
--   with its threads as a step relation; Queue is what the steps keep, Runs and Ends are the proofs on runs.
--   A run is a sequence of steps in any order.
-- - Hanoi (stack/06hanoi/hanoi.c): the towers and the recursive `play`, on the number of discs. Towers has the discs of
--   a tower and one move, Play the runs.
--
-- Conventions. A function that changes an object behind a pointer returns the new object; a status
-- or a result comes first, in a tuple. Whether `malloc` succeeds, what a system call returns, and
-- the order in which signals and threads run are arguments. An `int` that the program compares with
-- zero or subtracts from is a ℤ of Base/Int; an index or a count that stays in range is a natural
-- number. Sums of tokens (TokenBuckets) and the calculator's values (Calc) wrap around by `int_of`. Arrays are lists: a read out of range has a default or is `none`, a write out of range
-- changes nothing, and the invariants rule both out. `none` as the outcome of a loop means that its
-- fuel ran out or that the C code reads through NULL, or uses an array that `fgets` left unwritten. Where nodes point at each other, in Llist, Htable and Recipes, the
-- memory is a heap, and an operation is a command on it that fails on memory that is not allocated.
--
-- Not modelled: programs that only call the system (files, sockets, processes, directories), what is
-- printed on a screen as such, the other copies of the lists, queues, stacks, pools and token buckets,
-- and the exercises without state of their own.
pub mod Base
pub mod Window
pub mod TaskQueue
pub mod Tree
pub mod Base64
pub mod Relay
pub mod Gomoku
pub mod TokenBuckets
pub mod Pool
pub mod Alarms
pub mod Stack
pub mod Scan
pub mod Calc
pub mod Llist
pub mod Htable
pub mod Anytimer
pub mod Recipes
pub mod Workers
pub mod Hanoi
