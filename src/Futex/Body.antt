-- ===== src/Futex/Body.antt =====
-- `ThreadBody` of racey-futex.c: the threads of a group take turns as its `owner` says, one access to
-- shared memory at a time. The kernel's part of the futex calls is `sleeping`: FUTEX_WAIT goes to
-- sleep only if the word still has the value that is given, FUTEX_WAKE wakes all that sleep on the
-- word, since there are at most 32. The call returns 0 or -1, never EINTR, so that the loop around
-- FUTEX_WAIT on `round` makes one call.
pub mod Fits
pub mod Move
pub mod Invariant
pub mod Safety
pub mod Hang
pub mod Alone
pub mod Forward
pub mod Solo
pub mod Sequence
pub mod Choice
pub mod Ahead
use racey_suite.Prelude.{
  ℕ, zero, suc, ◌+◌, ◌-◌, ◌/◌, ◌%◌, ℤ, pos, negsuc, Bool, true, false, ◌&&◌, Option, none, some,
  List, get_elem?, set?, set, u32, ltb, leb, ◌==◌, if◌then◌else◌, update,
}
use racey_suite.Machine.{Turn, moved, waiting, halted, fault, Program, System}
use racey_suite.Racey.{Memory, Mixing, fetch, Round, busy, over, mix_step}
use racey_suite.Launch.{init_memory}
use racey_suite.Futex.{FutexGroup, negate}
use racey_suite.Futex.Points.{
  Pc, Point, Queue, Shared, Vars, Word, adding, arriving, asleep_owner, asleep_round, assigning,
  behind_barrier, checking, drawing, ended, is_negative, leading, loading, mixing, mucking, my_turn,
  next_inner, next_turn, owner_word, passing, plus_one, reading_owner, reading_round, removing,
  round_word, same_int, scan_from, scanning, schedule, sizing, spinning_owner, spinning_round,
  storing, turn, waiting_owner, waiting_round, waking,
}

abbrev pub with_group : Shared → ℕ → FutexGroup → Shared
with_group s h g = record s { groups = set s.groups h g }

abbrev pub with_sleep : Shared → ℕ → Option Queue → Shared
with_sleep s tid o = record s { sleeping = update s.sleeping tid o }

abbrev pub same_word : Word → Word → Bool
same_word owner_word owner_word = true
same_word round_word round_word = true
same_word _ _ = false

-- What FUTEX_WAKE leaves of a thread that sleeps.
abbrev pub awake : Queue → Option Queue → Option Queue
awake q none = none
awake q (some p) = if q.group == p.group && same_word q.word p.word then none else some p

abbrev pub wake : Shared → Queue → Shared
wake s q = record s { sleeping = λ t. awake q (s.sleeping t) }

-- A sleeping thread goes on when it has been woken, or at any time if `spurious` says that the
-- kernel may end the wait by itself.
abbrev pub woken : Bool → Shared → ℕ → Pc → Option Queue → Turn Shared Pc
woken spurious s tid next none = moved s next
woken spurious s tid next (some q) =
    if spurious then moved (with_sleep s tid none) next else waiting

-- FUTEX_WAIT, where `same` tells whether the word has the value.
abbrev pub futex_wait : Shared → ℕ → Queue → Bool → Pc → Pc → Turn Shared Pc
futex_wait s tid q same asleep next =
    if same then moved (with_sleep s tid (some q)) asleep else moved s next

-- What a look at `g->threads[n]` in the three loops leads to.
abbrev pub look_leader : Shared → ℕ → ℕ → ℤ → ℕ → Option ℕ → Turn Shared Pc
look_leader s tid i owner n none = fault
look_leader s tid i owner n (some zero) =
    moved s (if n + 1 == 33 then reading_round i owner (0 == tid) else leading i owner (n + 1))
look_leader s tid i owner n (some (suc k)) = moved s (reading_round i owner (n == tid))

abbrev pub look_live : Shared → ℕ → Vars → ℕ → Option ℕ → Turn Shared Pc
look_live s i v n none = fault
look_live s i v n (some zero) =
    moved s (turn i v (if n + 1 == 33 then assigning (pos 0) else checking (n + 1)))
look_live s i v n (some (suc k)) = moved s (turn i v drawing)

abbrev pub look_scan : Shared → FutexGroup → ℕ → Vars → ℕ → Option ℕ → Turn Shared Pc
look_scan s g i v n none = fault
look_scan s g i v n (some zero) = moved s (turn i v (scan_from g ((n + 1) % 33)))
look_scan s g i v n (some (suc k)) = moved s (turn i v (assigning (pos n)))

-- `groupSize` behind the look at `threads[i]`, where `n` are counted.
abbrev pub next_size : ℕ → ℕ → Point
next_size i n = if i + 1 == 33 then assigning (negate n) else sizing (i + 1) n

abbrev pub look_size : Shared → ℕ → Vars → ℕ → ℕ → Option ℕ → Turn Shared Pc
look_size s i v j n none = fault
look_size s i v j n (some zero) = moved s (turn i v (next_size j n))
look_size s i v j n (some (suc k)) = moved s (turn i v (next_size j (n + 1)))

abbrev pub draw : Shared → FutexGroup → ℕ → Vars → Option ℕ → Turn Shared Pc
draw s g i v none = fault
draw s g i v (some num) = moved s (turn i v (scan_from g (num % (g.stop - g.begin + 1) + g.begin)))

abbrev pub remove_me : Shared → ℕ → FutexGroup → ℕ → Vars → Option (List ℕ) → Turn Shared Pc
remove_me s h g i v none = fault
remove_me s h g i v (some ts) = moved (with_group s h (record g { threads = ts })) (schedule i v)

-- `sig[threadId]++`, on an `unsigned`.
abbrev pub store_sig : ℕ → ℕ → Shared → Option (List ℕ) → Turn Shared Pc
store_sig max_loop i s none = fault
store_sig max_loop i s (some sigs) =
    moved (record s { mem = record { sig = sigs; m = s.mem.m } }) (next_turn max_loop i)

abbrev pub muck : ℕ → ℕ → ℕ → Shared → Option ℕ → Turn Shared Pc
muck max_loop tid i s none = fault
muck max_loop tid i s (some num) = store_sig max_loop i s (set? s.mem.sig tid (u32 (num + 1)))

abbrev pub after_mix : ℕ → Shared → ℕ → ℕ → Vars → Option Round → Turn Shared Pc
after_mix max_loop s i k v none = fault
after_mix max_loop s i k v (some (busy mem q)) =
    moved (record s { mem = mem }) (turn i v (mixing k q))
after_mix max_loop s i k v (some (over mem)) =
    moved (record s { mem = mem }) (next_inner max_loop (suc i) (suc k) v)

-- One access of a thread of group `g`, at index `h`, in its turn.
unfoldable pub turn_step :
    ℕ → Bool → ℕ → ℕ → Shared → FutexGroup → ℕ → Vars → Point → Turn Shared Pc
unfolding mix_step
turn_step max_loop spurious tid h s g i v (mixing k q) =
    after_mix max_loop s i k v (mix_step tid s.mem q)
turn_step max_loop spurious tid h s g i v removing = remove_me s h g i v (set? g.threads tid 0)
turn_step max_loop spurious tid h s g i v adding =
    moved (with_group s h (record g { owner = plus_one g.owner })) (turn i v spinning_owner)
turn_step max_loop spurious tid h s g i v spinning_owner =
    moved s (turn i v (if same_int g.owner (pos 0) then behind_barrier v else spinning_round))
turn_step max_loop spurious tid h s g i v spinning_round =
    moved s (turn i v (if g.round == v.old_round then spinning_owner else behind_barrier v))
turn_step max_loop spurious tid h s g i v (checking n) = look_live s i v n (get_elem? g.threads n)
turn_step max_loop spurious tid h s g i v drawing = draw s g i v (get_elem? s.mem.sig tid)
turn_step max_loop spurious tid h s g i v (scanning n) = look_scan s g i v n (get_elem? g.threads n)
turn_step max_loop spurious tid h s g i v (sizing j n) = look_size s i v j n (get_elem? g.threads j)
turn_step max_loop spurious tid h s g i v (assigning z) =
    moved (with_group s h (record g { owner = z })) (turn i v loading)
turn_step max_loop spurious tid h s g i v loading = moved s (turn i v (storing g.round))
turn_step max_loop spurious tid h s g i v (storing r) =
    moved (with_group s h (record g { round = r + 1 })) (turn i v waking)
turn_step max_loop spurious tid h s g i v waking =
    moved
      (wake s (record { group = h; word = if is_negative v.owner then round_word else owner_word }))
      (next_turn max_loop i)
turn_step max_loop spurious tid h s g i v waiting_round =
    futex_wait s tid (record { group = h; word = round_word }) (g.round == v.old_round)
      (turn i v asleep_round) (next_turn max_loop i)
turn_step max_loop spurious tid h s g i v asleep_round =
    woken spurious s tid (next_turn max_loop i) (s.sleeping tid)

unfoldable pub body_step : ℕ → ℕ → Bool → ℕ → ℕ → Shared → Pc → FutexGroup → Turn Shared Pc
unfolding turn_step
body_step num_procs max_loop spurious tid h s arriving g =
    moved (record s { arrived = suc s.arrived }) passing
body_step num_procs max_loop spurious tid h s passing g =
    if leb num_procs s.arrived then moved s (next_turn max_loop 0) else waiting
body_step num_procs max_loop spurious tid h s (reading_owner i) g = moved s (my_turn tid i g.owner)
body_step num_procs max_loop spurious tid h s (leading i owner n) g =
    look_leader s tid i owner n (get_elem? g.threads n)
body_step num_procs max_loop spurious tid h s (reading_round i owner leader) g =
    moved s
      (next_inner max_loop i 0 (record { owner = owner; leader = leader; old_round = g.round }))
body_step num_procs max_loop spurious tid h s (turn i v p) g =
    turn_step max_loop spurious tid h s g i v p
body_step num_procs max_loop spurious tid h s (waiting_owner i owner) g =
    futex_wait s tid (record { group = h; word = owner_word }) (same_int g.owner owner)
      (asleep_owner i) (mucking i)
body_step num_procs max_loop spurious tid h s (asleep_owner i) g =
    woken spurious s tid (mucking i) (s.sleeping tid)
body_step num_procs max_loop spurious tid h s (mucking i) g =
    muck max_loop tid i s (get_elem? s.mem.sig tid)
body_step num_procs max_loop spurious tid h s ended g = halted

abbrev pub in_group : Option FutexGroup → (FutexGroup → Turn Shared Pc) → Turn Shared Pc
in_group none step = fault
in_group (some g) step = step g

-- `ThreadBody` behind the search for the group, whose index is `home tid`.
unfoldable pub futex_step : (ℕ → ℕ) → ℕ → ℕ → Bool → Program Shared Pc
unfolding body_step
futex_step home num_procs max_loop spurious tid s p =
    in_group (get_elem? s.groups (home tid))
      (body_step num_procs max_loop spurious tid (home tid) s p)

abbrev pub is_ended : Pc → Bool
is_ended ended = true
is_ended _ = false

abbrev pub boot : List FutexGroup → System Shared Pc
boot gs = record {
  shared = record { mem = init_memory; groups = gs; arrived = 0; sleeping = λ t. none };
  locals = λ t. arriving;
}
