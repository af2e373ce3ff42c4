-- ===== src/Futex.antt =====
-- The scheduling groups of racey-futex.c: how `main` divides the threads, how a thread finds its
-- group, and how a group picks the thread or threads of its next round.
pub mod Points
pub mod Body
pub mod Groups
pub mod Pick
pub mod Init
pub mod Homes
pub mod Main
pub mod Solo
pub mod Leader
use racey_suite.Prelude.{
  ℕ, zero, suc, ◌+◌, ◌-◌, ◌/◌, ◌%◌, ℤ, pos, negsuc, Bool, true, false, ◌||◌, Option, none, some,
  List, [], ◌∷◌, get_elem?, set?, replicate, ◌==◌, leb, ltb, if◌then◌else◌,
}
use racey_suite.Outcome.{Outcome, returned, aborted, crashed, unfinished, ◌>>=◌, access}

abbrev pub nfutex : ℕ
nfutex = 4

pub record FutexGroup : Type 0 where
  pub owner : ℤ  -- a thread id, or minus the number of threads that are still to run
  pub round : ℕ
  pub threads : List ℕ  -- 1 if the thread is present
  pub begin : ℕ
  pub stop : ℕ  -- the field `end`

-- `-n`.
abbrev pub negate : ℕ → ℤ
negate zero = pos 0
negate (suc n) = negsuc n

-- What the loop that fills a group leaves: `k`, `size` and `threads`.
pub record Filled : Type 0 where
  pub next : ℕ
  pub size : ℕ
  pub threads : List ℕ

-- `for(; k < end && k <= NumProcs; ++k)`, with `left` for `end - k`.
unfoldable pub fill_group : ℕ → ℕ → ℕ → ℕ → List ℕ → Outcome Filled
fill_group num_procs zero k size threads =
    returned (record { next = k; size = size; threads = threads })
fill_group num_procs (suc left) k size threads = elim (leb k num_procs) [
  | true ↦ access (set? threads k 1) >>= λ ts. fill_group num_procs left (k + 1) (size + 1) ts
  | false ↦ returned (record { next = k; size = size; threads = threads })
]

-- `end - k` at the head of that loop.
abbrev pub group_room : ℕ → ℕ
group_room num_procs = if ltb num_procs nfutex then num_procs else num_procs / nfutex

-- The groups that `main` sets up, with `left` to go; `threads` is zero to begin with.
unfoldable pub init_groups : ℕ → ℕ → ℕ → Outcome (List FutexGroup)
unfolding fill_group
init_groups num_procs zero k = returned []
init_groups num_procs (suc left) k = do
  f ← fill_group num_procs (group_room num_procs) k 0 (replicate 33 0)
  gs ← init_groups num_procs left f.next
  returned (
      record { owner = negate f.size; round = 0; threads = f.threads; begin = k; stop = f.next }
      ∷ gs)

-- `groups` after `main` has set them up.
unfoldable pub groups : ℕ → Outcome (List FutexGroup)
unfolding init_groups
groups num_procs = init_groups num_procs nfutex 1

-- The loop at the head of `ThreadBody`, from group `i` on: the index of the first group with the
-- thread, or a failed assertion if the last one lacks it.
unfoldable pub find_group : ℕ → ℕ → List FutexGroup → Outcome ℕ
find_group thread_id i [] = aborted
find_group thread_id i (g ∷ gs) = do
  present ← access (get_elem? g.threads thread_id)
  elim present [ zero ↦ find_group thread_id (i + 1) gs | suc k ↦ returned i ]

abbrev pub is_live : ℕ → Bool
is_live zero = false
is_live (suc k) = true

-- `groupSize`.
unfoldable pub group_size : List ℕ → ℕ
group_size [] = 0
group_size (t ∷ ts) = (if is_live t then 1 else 0) + group_size ts

-- The test of the loop in `groupPickNext`: whether some thread is present.
unfoldable pub some_live : List ℕ → Bool
some_live [] = false
some_live (t ∷ ts) = is_live t || some_live ts

-- `groupLeader`, over the rest of `threads` from index `i` on.
unfoldable pub group_leader : ℕ → List ℕ → ℕ
group_leader i [] = 0
group_leader i (t ∷ ts) = let later = group_leader (i + 1) ts in if is_live t then i else later

-- `groupRemoveMe`.
unfoldable pub group_remove : ℕ → FutexGroup → Outcome FutexGroup
group_remove thread_id g =
    access (set? g.threads thread_id 0) >>= λ ts. returned (record g { threads = ts })

-- `while (n != g->end && g->threads[n] == 0) n = (n+1) % 33`, with fuel.
unfoldable pub scan_threads : ℕ → FutexGroup → ℕ → Outcome ℕ
scan_threads zero g n = unfinished
scan_threads (suc fuel) g n =
    let rest = access (get_elem? g.threads n) >>= λ t. elim t [
      | zero ↦ scan_threads fuel g ((n + 1) % 33)
      | suc k ↦ returned n
    ] in
    if n == g.stop then returned n else rest

-- `groupPickNext`, where the number of the calling thread is `num`: 0 for an empty group, minus
-- the size for the whole group, or the id of one thread.
unfoldable pub group_pick_next : ℕ → FutexGroup → Outcome ℤ
unfolding group_size scan_threads some_live
group_pick_next num g =
    let scan = scan_threads 34 g (num % (g.stop - g.begin + 1) + g.begin) >>= λ n.
    returned (if n == g.stop then negate (group_size g.threads) else pos n) in
    if some_live g.threads then scan else returned (pos 0)
