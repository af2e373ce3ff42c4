-- ===== src/Machine.antt =====
-- Threads 1 to n over one shared memory, interleaved one shared access at a time. The programs of
-- the suite create their threads with the ids 1 to NumProcs; a thread that is not created yet is
-- one that has not been picked yet.
pub mod Laws
pub mod Liveness
use racey_suite.Prelude.{ℕ, ◌≤◌, ◌≡◌, Bool, true, ◌&&◌, List, [], ◌∷◌, zero, suc, leb, update}
use racey_suite.Prelude.{if◌then◌else◌}
use racey_suite.Outcome.{Outcome, returned, crashed, unfinished, ◌>>=◌}

-- What one turn of a thread does: a move, a wait for a lock, nothing after its end, or an access
-- out of bounds.
pub data Turn (S L : Type 0) : Type 0 where
  moved : S → L → Turn S L
  waiting : Turn S L
  halted : Turn S L
  fault : Turn S L

-- The code of the threads: from the id, the shared memory and the local state.
abbrev pub Program : Type 0 → Type 0 → Type 0
Program S L = ℕ → S → L → Turn S L

pub record System (S L : Type 0) : Type 0 where
  pub shared : S
  pub locals : ℕ → L

module _ {S L : Type 0} (prog : Program S L) (n : ℕ) where
  pub data Step (c : System S L) : System S L → Type 0 where
    pick :
        (i : ℕ) {s : S} {l : L}
        → 1 ≤ i
        → i ≤ n
        → prog i c.shared (c.locals i) ≡ moved s l
        → Step c (record { shared = s; locals = update c.locals i l })

  pub data Reach (init : System S L) : System S L → Type 0 where
    start : Reach init init
    later : {c d : System S L} → Reach init c → Step c d → Reach init d

abbrev pub act : {S L : Type 0} → System S L → ℕ → Turn S L → Outcome (System S L)
act c i (moved s l) = returned (record { shared = s; locals = update c.locals i l })
act c i waiting = returned c
act c i halted = returned c
act c i fault = crashed

module _ {S L : Type 0} (prog : Program S L) (n : ℕ) where
  -- A scheduler that names a thread which does not exist, waits or has ended wastes a turn.
  pub turn : System S L → ℕ → Outcome (System S L)
  turn c i = if leb 1 i && leb i n then act c i (prog i c.shared (c.locals i)) else returned c

  unfoldable pub run : List ℕ → System S L → Outcome (System S L)
  unfolding turn
  run [] c = returned c
  run (i ∷ is) c = turn c i >>= λ d. run is d

abbrev pub all_ended : {L : Type 0} → (L → Bool) → ℕ → (ℕ → L) → Bool
all_ended ended zero locals = true
all_ended ended (suc n) locals = ended (locals (suc n)) && all_ended ended n locals

-- Runs the threads by a schedule, and returns the shared memory once all of them have ended, as
-- the loop of `pthread_join` calls does.
unfoldable pub run_and_join :
    {S L : Type 0} → Program S L → (L → Bool) → ℕ → List ℕ → System S L → Outcome S
unfolding run
run_and_join prog ended n schedule init = do
  last ← run prog n schedule init
  if all_ended ended n last.locals then returned last.shared else unfinished
