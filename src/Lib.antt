-- ===== src/Lib.antt =====
-- The racey suite: C programs whose threads or processes race, each in its own way, over two arrays,
-- and print a signature that tells whether two runs went the same way.
--
-- How the programs work, and where each part is modelled:
--
--   Racey     `mix`, the arrays `sig` and `m`, the body of the main loop and the loop that computes
--             the signature (racey-basic.c, the same in all programs). `unsigned` wraps at 2 ^ 32.
--             `mix_step` is one access to shared memory; `mix_round` and `mix_rounds` are the same
--             code read as a sequential program. Racey/Mix, Racey/Loop and Racey/Signature are
--             about these parts.
--   Machine   Threads 1 to n that take turns over one shared memory. `Step` and `Reach` are the
--             relation, `run` executes a schedule, a list of thread ids. Machine/Laws has the
--             invariant rule and relates the two; Machine/Liveness derives an ending schedule from
--             a measure of the work that is left.
--   Outcome   How a run of `main` ends: with the value that it prints, by exit, by a failed assert,
--             by an access or a division that C leaves undefined, or not yet, where the schedule
--             is used up.
--   Launch    The arguments (`parse_args`), the asserted calls and the join of the threads
--             (`run_main`), for all programs over pthreads.
--   Loop      The main loop without locks, as a step relation: `next_round` is the test of the
--             `for`, and `rest` the code behind the last assignment of an iteration.
--   Gate      `ThreadBody` of racey-basic.c: counter under a mutex, busy wait, main loop. The
--             constructors of `Gate.Pc` are the points between two accesses. Gate/Move, /Invariant,
--             /Safety, /Progress and /Main carry the proofs for the three programs that use it.
--   Free      `ThreadBody` without a barrier.
--   Basic, NoBarrier, Freqsyscall, MmapTmpfile, Guarded, ForkMmap, ReadFile
--             `thread_body` and `main` of racey-basic.c, racey-nobarrier.c, racey-freqsyscall.c,
--             racey-mmaptmpfile.c, racey-guarded.c, racey-forkmmap.c (`child_process` there) and
--             racey-readfile.c. Guarded models the eight mutexes and the pthread barrier as well,
--             ReadFile the position that the threads share in the file: `reads` counts the calls
--             of `read`, and call k has result k whichever thread makes it.
--   Pipe      The readers and writers of racey-forkpipe.c and racey-clonepipe.c: a step relation over
--             the contents of the pipes and the number of their open write ends. A pipe holds
--             `capacity` values, a parameter.
--   ForkPipe, ClonePipe
--             `main` of these two programs (`run_processes`, `run_threads`).
--   TcpServer The workers and `main` of racey-tcp/racey-tcp-server.c over the table `client_fds`.
--             TcpServer/Table reads the table as a stack, /Held, /Stack, /Known and /Invariant carry
--             the invariant, /Server and /Pool have the results.
--   EpollServer
--             `main` of racey-tcp/racey-tcp-server-epoll.c: `handle` is the body of its loop over
--             the events, `drain` the loop that copies what a connection sends.
--   TcpClient The table `quote`, `racey_worker` and `main` of racey-tcp/racey-tcp-client.c. The bytes of
--             the lines are computed from the strings of the source.
--   Session   A worker of the client with the server with epoll: the bytes that the one writes to
--             its connections are those that the other reads.
--   Signal    `ThreadBody` and `ThreadSignalHandler` of racey-signal.c. Thread NumProcs + t stands for
--             the kernel, which delivers a signal to thread t; `frames` holds the handlers that run.
--   Futex     The groups of racey-futex.c: their set-up in `main` (`groups`), the search of
--             `ThreadBody` (`find_group`), `groupSize`, `groupLeader`, `groupRemoveMe` and
--             `groupPickNext`, each as one function; Futex/Groups, /Pick, /Init and /Leader are
--             about these. Futex/Body is `ThreadBody`, in which the same loops are run one access
--             at a time: `Pc` and `Point` of Futex/Points are the points between two accesses,
--             `sleeping` the kernel's queues. Body/Fits, /Move, /Invariant and /Safety carry the
--             invariant, Body/Hang is about standstills, Body/Alone, /Forward, /Ahead and /Solo
--             about threads that are alone in their group, Body/Sequence and /Choice about the
--             loops as functions. Futex/Homes has the searches, Futex/Main and /Solo `main`.
--   Tests     The theorems at concrete command lines, schedules and states.
--
-- How they interact: a program's `main` parses the arguments, then starts `run_main` with the step
-- function of its threads and the arrays as the initial memory; the signature is computed from the
-- memory that is left when all threads have ended.
--
-- Assumptions. The results of atoi, malloc, calloc, mmap, mkstemp, ftruncate, open, fstat, read,
-- fork, wait, of the calls on sockets and of the pthread calls are parameters. A mutex has at most
-- one holder, and a pthread barrier opens when the number of threads it was set up for has arrived.
-- What a pipe and a signal do is said in Pipe and Signal. Each access to an array or a counter is
-- one step, in one order for all threads (sequential consistency). A thread that is not created yet
-- is one that has had no turn. `write` to a file or a socket takes all the bytes that it is given,
-- and fails for a count of -1. The word behind `sig` of racey-signal.c is a parameter.
--
-- Fuel and bounds. A run is as long as its schedule. The scan in `groupPickNext` has fuel 34: it
-- looks at each of the 33 entries of `threads` at most once before it stops, and once more at its
-- head. A worker of the client has fuel, which is enough above 17, the number of the lines. The
-- reads of one event in EpollServer have fuel, which is enough when it exceeds the number of pieces
-- that are read. NumProcs is at most 32, as the programs demand, and MaxLoop any positive number.
--
-- Not modelled: the system calls 318 to 320 of racey-forkpipe.c and racey-tcp-server.c, which no
-- source here defines and which are taken to leave the state of the programs alone; output, the loop that seizes the CPU, thread attributes, and the stack and heap
-- addresses that are printed beside the signature. The two simple programs, which call dmp.h, a
-- library outside the repository, are left out, as are the scripts.
pub mod Prelude
pub mod Outcome
pub mod Machine
pub mod Racey
pub mod Launch
pub mod Loop
pub mod Gate
pub mod Basic
pub mod Free
pub mod Guarded
pub mod Futex
pub mod ForkMmap
pub mod ReadFile
pub mod Pipe
pub mod ForkPipe
pub mod ClonePipe
pub mod Session
pub mod TcpClient
pub mod TcpServer
pub mod EpollServer
pub mod Signal
pub mod MmapTmpfile
pub mod NoBarrier
pub mod Freqsyscall
pub mod Tests
