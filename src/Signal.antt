-- ===== src/Signal.antt =====
-- racey-signal.c: threads that send each other SIGUSR1, and a handler that interrupts a thread and
-- mixes `m` with the thread's `sig2`. Threads 1 to NumProcs are those of the program; thread
-- NumProcs + t is the kernel, which delivers a pending signal to thread t.
pub mod Move
pub mod Invariant
pub mod Keeps
pub mod Safety
pub mod Progress
pub mod Live
pub mod Result
pub mod Main
use racey_suite.Prelude.{
  ℕ, zero, suc, ◌+◌, ◌-◌, ◌*◌, ◌/◌, ◌%◌, Bool, true, false, ◌&&◌, Option, none, some, List, [], ◌∷◌,
  String, get_elem?, set?, replicate, ltb, leb, if◌then◌else◌, update,
}
use racey_suite.Outcome.{Outcome, returned, ◌>>=◌, ◌>>◌, assert, access}
use racey_suite.Machine.{Turn, moved, waiting, halted, fault, Program, System, run_and_join}
use racey_suite.Racey.{Memory, Mixing, fetch, Round, busy, over, mix_step, mix_sigs, sig_init}
use racey_suite.Launch.{Libc, parse_args, assert_each, init_memory}

-- A handler that runs: the rounds behind the one it is in, and where it stands in that.
pub record Frame : Type 0 where
  pub rounds : ℕ
  pub point : Mixing

pub record Shared : Type 0 where
  pub mem : Memory
  pub sig2 : List ℕ
  -- whether `threadSelfs[i]` is set
  pub thread_selfs : List Bool
  -- whether the handler is installed, which holds for the whole process
  pub installed : Bool
  -- how many times threads have come to the barrier
  pub arrived : ℕ
  -- the threads to which a signal was sent that is not delivered, the handlers that run, and the
  -- threads that have ended
  pub pending : ℕ → Bool
  pub frames : ℕ → Option Frame
  pub dead : ℕ → Bool

pub data Pc : Type 0 where
  storing_self : Pc  -- before `threadSelfs[threadId] = pthread_self()`
  installing : Pc  -- before `sigaction`
  arriving : Pc  -- before the first barrier
  passing : Pc  -- in the first barrier
  mixing : (i k : ℕ) → Mixing → Pc  -- in the inner loop
  signalling : (i : ℕ) → Pc  -- before `pthread_kill`
  coming_back : Pc  -- before the second barrier
  leaving : Pc  -- in the second barrier
  ended : Pc
  delivering : Pc  -- the kernel

-- `npersig`.
abbrev pub npersig : ℕ → ℕ
npersig max_loop =
    if leb 1000 max_loop then max_loop / 1000 else if leb 100 max_loop then max_loop / 100 else 1

-- The test `k < npersig && i < MaxLoop`.
unfoldable pub next_inner : ℕ → ℕ → ℕ → Pc
next_inner max_loop i k =
    if ltb k (npersig max_loop) && ltb i max_loop then mixing i k fetch else signalling i

-- The test `i < MaxLoop` of the outer loop.
unfoldable pub next_batch : ℕ → ℕ → Pc
unfolding next_inner
next_batch max_loop i = if ltb i max_loop then next_inner max_loop i 0 else coming_back

-- What an access in the inner loop leads to.
abbrev pub after_mix : ℕ → Shared → ℕ → ℕ → Option Round → Turn Shared Pc
after_mix max_loop s i k none = fault
after_mix max_loop s i k (some (busy mem q)) = moved (record s { mem = mem }) (mixing i k q)
after_mix max_loop s i k (some (over mem)) =
    moved (record s { mem = mem }) (next_inner max_loop (suc i) (suc k))

-- `pthread_kill(threadSelfs[target], SIGUSR1)`, from what `threadSelfs[target]` is; a thread that
-- has ended is none to send a signal to.
abbrev pub kill : Shared → ℕ → Pc → Option Bool → Turn Shared Pc
kill s target next none = fault
kill s target next (some false) = fault
kill s target next (some true) =
    if s.dead target
    then fault
    else moved (record s { pending = update s.pending target true }) next

abbrev pub target_of : ℕ → ℕ → ℕ
target_of num_procs num = num % num_procs + 1

abbrev pub choose_and_kill : ℕ → Shared → Pc → Option ℕ → Turn Shared Pc
choose_and_kill num_procs s next none = fault
choose_and_kill num_procs s next (some num) =
    kill s (target_of num_procs num) next (get_elem? s.thread_selfs (target_of num_procs num))

abbrev pub store_self : Shared → Option (List Bool) → Turn Shared Pc
store_self s none = fault
store_self s (some selfs) = moved (record s { thread_selfs = selfs }) installing

-- The handler behind a round of its loop.
abbrev pub next_frame : ℕ → Option Frame
next_frame zero = none
next_frame (suc rounds) = some (record { rounds = rounds; point = fetch })

-- The memory as the handler sees it: `sig2` in place of `sig`.
abbrev pub handler_memory : Shared → Memory
handler_memory s = record { sig = s.sig2; m = s.mem.m }

abbrev pub handled : Shared → Memory → ℕ → Option Frame → Shared
handled s mem tid frame = record s {
  mem = record { sig = s.mem.sig; m = mem.m };
  sig2 = mem.sig;
  frames = update s.frames tid frame;
}

-- One access of the handler, which leaves the thread where it is.
abbrev pub handler_turn : Shared → ℕ → Pc → ℕ → Option Round → Turn Shared Pc
handler_turn s tid p rounds none = fault
handler_turn s tid p rounds (some (busy mem q)) =
    moved (handled s mem tid (some (record { rounds = rounds; point = q }))) p
handler_turn s tid p rounds (some (over mem)) = moved (handled s mem tid (next_frame rounds)) p

-- `ThreadBody`, and the kernel for thread t, which delivers no signal to a thread that is in its
-- handler or has ended; without a handler the signal ends the process.
abbrev pub deliver : Shared → ℕ → Bool → Option Frame → Turn Shared Pc
deliver s t due (some frame) = waiting
deliver s t false none = waiting
deliver s t true none =
    if s.installed
    then moved
        (record s {
          pending = update s.pending t false;
          frames = update s.frames t (some (record { rounds = 99; point = fetch }));
        })
        delivering
    else fault

unfoldable pub body_step : ℕ → ℕ → Program Shared Pc
unfolding mix_step next_batch next_inner
body_step num_procs max_loop tid s storing_self = store_self s (set? s.thread_selfs tid true)
body_step num_procs max_loop tid s installing = moved (record s { installed = true }) arriving
body_step num_procs max_loop tid s arriving = moved (record s { arrived = suc s.arrived }) passing
body_step num_procs max_loop tid s passing =
    if leb num_procs s.arrived then moved s (next_batch max_loop 0) else waiting
body_step num_procs max_loop tid s (mixing i k q) = after_mix max_loop s i k (mix_step tid s.mem q)
body_step num_procs max_loop tid s (signalling i) =
    choose_and_kill num_procs s (next_batch max_loop i) (get_elem? s.mem.sig tid)
body_step num_procs max_loop tid s coming_back =
    moved (record s { arrived = suc s.arrived }) leaving
body_step num_procs max_loop tid s leaving =
    if leb (2 * num_procs) s.arrived
    then moved (record s { dead = update s.dead tid true }) ended
    else waiting
body_step num_procs max_loop tid s ended = halted
body_step num_procs max_loop tid s delivering =
    let t = tid - num_procs in if s.dead t then waiting else deliver s t (s.pending t) (s.frames t)

-- A thread whose handler runs goes on with that.
abbrev pub interruptible : ℕ → ℕ → ℕ → Shared → Pc → Option Frame → Turn Shared Pc
interruptible num_procs max_loop tid s p none = body_step num_procs max_loop tid s p
interruptible num_procs max_loop tid s p (some frame) =
    handler_turn s tid p frame.rounds (mix_step tid (handler_memory s) frame.point)

unfoldable pub signal_step : ℕ → ℕ → Program Shared Pc
unfolding body_step
signal_step num_procs max_loop tid s p = interruptible num_procs max_loop tid s p (s.frames tid)

abbrev pub is_ended : Pc → Bool
is_ended ended = true
is_ended delivering = true
is_ended _ = false

abbrev pub boot : ℕ → List ℕ → System Shared Pc
boot num_procs sig2 = record {
  shared = record {
    mem = init_memory;
    sig2 = sig2;
    thread_selfs = replicate 33 false;
    installed = false;
    arrived = 0;
    pending = λ t. false;
    frames = λ t. none;
    dead = λ t. false;
  };
  locals = λ tid. if leb tid num_procs then storing_self else delivering;
}

-- `sig[k]`. Behind the end of `sig` C leaves open what a read comes to: it gives the word that is
-- there, `beyond (k - 33)`, or it is none and the program crashes.
abbrev pub sig_at : (ℕ → Option ℕ) → ℕ → Option ℕ → Option ℕ
sig_at beyond k none = beyond (k - 33)
sig_at beyond k (some v) = some v

-- `for(i = 0; i < 33; ++i) sig2[i] = sig[33-i]`, with `left` rounds to go.
unfoldable pub init_sig2 : (ℕ → Option ℕ) → ℕ → ℕ → Outcome (List ℕ)
unfolding sig_init
init_sig2 beyond i zero = returned []
init_sig2 beyond i (suc left) = do
  v ← access (sig_at beyond (33 - i) (get_elem? sig_init (33 - i)))
  rest ← init_sig2 beyond (i + 1) left
  returned (v ∷ rest)

-- The signature over both arrays.
unfoldable pub signal_signature : ℕ → Shared → Outcome ℕ
unfolding mix_sigs
signal_signature num_procs s = do
  v ← access (get_elem? s.mem.sig 0)
  mix_sig ← mix_sigs (num_procs - 1) 1 v s.mem.sig
  mix_sigs (num_procs - 1) 1 mix_sig s.sig2

-- `main` behind the loop that fills `sig2`.
unfoldable pub run_threads : Libc → ℕ → ℕ → List ℕ → List ℕ → Outcome ℕ
unfolding assert_each run_and_join signal_step signal_signature
run_threads libc num_procs max_loop schedule sig2 = do
  assert (libc.malloc 0)
  assert (libc.malloc 1)
  assert_each libc.init 0 1
  assert_each libc.create 0 num_procs
  last ←
      run_and_join (signal_step num_procs max_loop) is_ended (2 * num_procs) schedule
        (boot num_procs sig2)
  assert_each libc.join 0 num_procs
  signal_signature num_procs last

unfoldable pub main : Libc → (ℕ → Option ℕ) → List String → List ℕ → Outcome ℕ
unfolding parse_args init_sig2 run_threads
main libc beyond argv schedule = do
  config ← parse_args libc.atoi argv
  sig2 ← init_sig2 beyond 0 33
  run_threads libc config.num_procs config.max_loop schedule sig2
