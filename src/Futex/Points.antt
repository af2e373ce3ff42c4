-- ===== src/Futex/Points.antt =====
-- The points of `ThreadBody` of racey-futex.c between two accesses, and where its tests lead.
use racey_suite.Prelude.{
  ℕ, zero, suc, ◌/◌, ℤ, pos, negsuc, Bool, true, false, ◌&&◌, Option, List, ltb, leb, ◌==◌,
  if◌then◌else◌,
}
use racey_suite.Racey.{Memory, Mixing, fetch}
use racey_suite.Futex.{FutexGroup}

-- The two words of a group on which threads sleep.
pub data Word : Type 0 where
  owner_word : Word
  round_word : Word

-- What a thread sleeps on.
pub record Queue : Type 0 where
  pub group : ℕ
  pub word : Word

pub record Shared : Type 0 where
  pub mem : Memory
  pub groups : List FutexGroup
  -- how many threads have come to the barrier
  pub arrived : ℕ
  pub sleeping : ℕ → Option Queue

-- The constants of one turn: `owner`, `isLeader` and `oldRound`.
pub record Vars : Type 0 where
  pub owner : ℤ
  pub leader : Bool
  pub old_round : ℕ

-- Where a thread stands in its turn.
pub data Point : Type 0 where
  mixing : (k : ℕ) → Mixing → Point  -- in the loop over `k`
  removing : Point  -- in `groupRemoveMe`
  adding : Point  -- before `__sync_fetch_and_add`
  spinning_owner : Point  -- before the test `g->owner != 0`
  spinning_round : Point  -- before the test `g->round == oldRound`
  checking : (n : ℕ) → Point  -- in the `for` of `groupPickNext`, before `g->threads[n]`
  drawing : Point  -- before `sig[threadId]` there
  scanning : (n : ℕ) → Point  -- in its `while`, before `g->threads[n]`
  sizing : (i n : ℕ) → Point  -- in `groupSize`, before `g->threads[i]`
  assigning : ℤ → Point  -- before the store of `g->owner`
  loading : Point  -- before the load of `g->round++`
  storing : (round : ℕ) → Point  -- before the store of it
  waking : Point  -- before FUTEX_WAKE
  waiting_round : Point  -- before FUTEX_WAIT on `round`
  asleep_round : Point  -- in it

pub data Pc : Type 0 where
  arriving : Pc  -- before the barrier
  passing : Pc  -- in the barrier
  reading_owner : (i : ℕ) → Pc
  leading : (i : ℕ) → ℤ → (n : ℕ) → Pc  -- in `groupLeader`, before `g->threads[n]`
  reading_round : (i : ℕ) → ℤ → Bool → Pc
  turn : (i : ℕ) → Vars → Point → Pc
  waiting_owner : (i : ℕ) → ℤ → Pc  -- before FUTEX_WAIT on `owner`
  asleep_owner : (i : ℕ) → Pc  -- in it
  mucking : (i : ℕ) → Pc  -- before `sig[threadId]++`
  ended : Pc

abbrev pub is_negative : ℤ → Bool
is_negative (pos n) = false
is_negative (negsuc n) = true

abbrev pub same_int : ℤ → ℤ → Bool
same_int (pos a) (pos b) = a == b
same_int (negsuc a) (negsuc b) = a == b
same_int _ _ = false

abbrev pub plus_one : ℤ → ℤ
plus_one (pos n) = pos (suc n)
plus_one (negsuc zero) = pos 0
plus_one (negsuc (suc n)) = negsuc n

-- `npersig`.
abbrev pub npersig : ℕ → ℕ
npersig max_loop =
    if leb 1000 max_loop then max_loop / 1000 else if leb 100 max_loop then max_loop / 100 else 1

-- The test `i < MaxLoop` of the outer loop.
abbrev pub next_turn : ℕ → ℕ → Pc
next_turn max_loop i = if ltb i max_loop then reading_owner i else ended

-- Behind `groupRemoveMe`: the test `owner < 0`.
abbrev pub schedule : ℕ → Vars → Pc
schedule i v = turn i v (if is_negative v.owner then adding else checking 0)

-- Behind the loop over `k`: the test `i == MaxLoop`.
abbrev pub executed : ℕ → ℕ → Vars → Pc
executed max_loop i v = if i == max_loop then turn i v removing else schedule i v

-- The test `k < npersig && i < MaxLoop`.
abbrev pub next_inner : ℕ → ℕ → ℕ → Vars → Pc
next_inner max_loop i k v =
    if ltb k (npersig max_loop) && ltb i max_loop
    then turn i v (mixing k fetch)
    else executed max_loop i v

-- The test of `while (n != g->end && ...)` at its first part.
abbrev pub scan_from : FutexGroup → ℕ → Point
scan_from g n = if n == g.stop then sizing 0 0 else scanning n

-- Behind the execution barrier.
abbrev pub behind_barrier : Vars → Point
behind_barrier v = if v.leader then checking 0 else waiting_round

-- `owner == threadId || owner < 0`, and the first part of `isLeader`.
abbrev pub my_turn : ℕ → ℕ → ℤ → Pc
my_turn tid i owner =
    if same_int owner (pos tid)
    then reading_round i owner true
    else if is_negative owner
    then leading i owner 0
    else waiting_owner i owner
