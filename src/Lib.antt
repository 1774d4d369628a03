-- ===== src/Lib.antt =====
-- Solutions to the exercises of an operating systems course, one program to a directory. The
-- programs are independent of each other, apart from libwc, which lab1/zad2 calls.
--
-- Which file models which program:
-- - WordCount: lab1/zad1/libwc.c, a library that runs `wc` through the shell and keeps the results
--   in a growing table. `Context` is `struct libwc_context`; `ensure_space`, `libwc_load_result`,
--   `libwc_del_result`, `libwc_get_result` and `libwc_stats_to_tmpfile` carry the names of the C
--   functions, and `escape_tmpfile`, `escape_paths` and `stats_command` are parts of the last. WordCount/Commands is lab1/zad2/main.c, the commands over it.
-- - CharCount: lab2/zad2/main.c, `interpret_char` and the loop of `main` that counts.
-- - BlankLines: lab2/zad1/main.c, the filter of blank lines; `next_round` is a round of its inner loop
--   or the read that follows.
-- - DirWalk: lab2/zad3/main.c, the walk through directories without nftw; `round` is a round of its
--   loop, and DirWalk/Recursive the same walk as a recursion. There the path is a text, and
--   DirWalk/Buffer is the growing buffer that holds it.
-- - TextSearch: lab3/zad3/main.c, a search for a text with a process for each directory; `search_round`
--   is a round of the loop that reads a file, TextSearch/Program the arguments and `main`. It shares
--   the names of paths with DirWalk.
-- - Shell: lab5/zad1/main.c, an interpreter of pipelines. Shell/HashMap is its hash table,
--   Shell/Buffer its vector and string, Shell/Parser, Shell/Lines and Shell/Machine the state
--   machine `parser_sm` and `main`, Shell/Pipeline the children that it starts.
-- - Mail: lab5/zad2/main.c, the command line and the message that it sends.
-- - Signals: lab4/zad3b/main.c, a parent and a child that count signals and confirm them, as a step
--   relation in which the handlers run between any two steps.
-- - Unconfirmed: lab4/zad3a/main.c, the same without confirmations, for signals that are queued and for
--   signals that are not.
-- - Collector: lab5/zad3/consumer.c, which puts numbered lines into a file, and
--   Collector/Producer lab5/zad3/producer.c, which sends them.
-- - Pizzeria: lab7/main.c, cooks and deliverers with an oven and a table in shared memory.
--   Pizzeria/Process holds their loops as a step relation, Pizzeria/Queue is about the table,
--   Pizzeria/Semaphores and Pizzeria/SystemV are the build that uses System V semaphores.
-- - Negative: lab8/main.c, threads that invert an image: `val_thread` and `blk_thread`.
--   Negative/Tokens and Negative/Reader are the reader of the image, a turn of its inner loop being
--   `turn`; Negative/Output is the file it writes, Negative/Duration the times it prints.
-- - Workshop: lab9/main.c, Santa, elves and reindeer as threads; Workshop/System interleaves them.
-- - Integral: lab3/zad2/main.c, the pairwise summation of its children and of its parent;
--   Integral/Pairs is about the sums of powers of two, Integral/Strides about the shares.
-- - Strtol: `strtol` of the C library and the digits that `sprintf` writes, for the text search and the
--   reader of images.
-- - Common: lists, tests, the words that a shell reads without quotes and expansions, C's signed
--   integers and sums over families of threads.
--
-- State and operations. A struct is a record and a mutable object is passed on explicitly; a
-- failed assertion or a call of `exit` is `none` or a constructor of its own. What a library or
-- the system answers is a parameter: `Env` for the calls of one `libwc_load_result`, `systems` for
-- the commands that the shell runs, `alloc` for the allocations of the interpreter, `atoi` and
-- `decimal` for conversions, `lstat`, `opendir` and `contents` for the file system of the walks. How
-- a shell reads a command line is a definition of Common/Words, after the rules of POSIX; it refuses
-- every line in which a character would mean anything else than itself. Concurrent programs are
-- relations between states: each semaphore or mutex operation and each critical section is one step, the sections being run under
-- their lock, and any number of cooks and deliverers is allowed. `pthread_cond_wait` may also
-- return without a signal.
--
-- The addition of the summation is a parameter, and its theorem is about exact addition: the rounding
-- of floating point is not modelled.
--
-- Bounds and fuel. `size_t` and `uint64_t` wrap at 2 ^ 64, `unsigned` at 2 ^ 32. A count of signals is
-- one that fits into an `int`; the reader of images converts each number to an `int`. The loop of
-- `next_size` clears a bit a round and so has at most 64 rounds. A probe of the hash table takes
-- as many rounds as there are cells. `parser_loop` and `take_packets` take a round for each
-- character, since each round passes one. `command_loop` has six rounds for each argument. The blank
-- line filter reads a line at most twice, and its fuel is a bound on that for every size of buffer.
-- The text search reads a byte in every round but the last, and so does the reader of images, which
-- needs five turns for the states of its header.
--
-- Not modelled: messages and reports, sleeping, the freeing of memory, failures of the calls that
-- set up shared memory, pipes and threads, and the programs that are little more than system
-- calls: lab3/zad1, lab4/zad1, lab4/zad2, lab10. The growing
-- buffer of lab3/zad3 is the one of lab2/zad3, and of lab2/zad3 only the build without nftw is modelled.
pub mod Common
pub mod WordCount
pub mod CharCount
pub mod BlankLines
pub mod DirWalk
pub mod Negative
pub mod Workshop
pub mod Pizzeria
pub mod Shell
pub mod Collector
pub mod Integral
pub mod Mail
pub mod Signals
pub mod Strtol
pub mod TextSearch
pub mod Unconfirmed
