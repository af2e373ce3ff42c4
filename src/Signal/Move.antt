-- ===== src/Signal/Move.antt =====
-- The turns of the threads of racey-signal.c as a relation.
use mathlib.Core.Bool.{false≢true}
use racey_suite.Prelude.{
  ℕ, zero, suc, ◌*◌, ◌≤◌, ◌<◌, ◌≡◌, ◌%◌, refl, Bool, true, false, Option, none, some, length,
  get_or, set, get_elem?-eq-get_or, set?-eq-set, length-set, arith, ◌∙◌, sym, if◌then◌else◌, update,
}
use racey_suite.Machine.{Turn, moved, waiting, halted, fault}
use racey_suite.Racey.{
  max_elem, mix, Memory, Mixing, fetch, first, second, put, save, Round, busy, over, mix_step,
}
use racey_suite.Racey.Mix.{mix-lt}
use racey_suite.Racey.Loop.{IsMixing, accesses}
use racey_suite.Signal.{
  Frame, Shared, Pc, storing_self, installing, arriving, passing, mixing, signalling, coming_back,
  leaving, ended, delivering, next_inner, next_batch, after_mix, handled, handler_turn, next_frame,
  deliver,
}

-- The sizes of the arrays.
pub record HasSizes (mem : Memory) : Type 0 where
  pub sigs : length mem.sig ≡ 33
  pub cells : length mem.m ≡ max_elem

-- What an access of a thread below 33 at a legal point leaves.
abbrev pub Sized : Mixing → Round → Type 0
Sized q (busy mem q') = HasSizes mem × IsMixing q' × (accesses q' < accesses q)
Sized q (over mem) = HasSizes mem

pub mix_step-Sized :
    (tid : ℕ) (mem : Memory) (q : Mixing)
    → tid < 33
    → HasSizes mem
    → IsMixing q
    → (r : Round) × (mix_step tid mem q ≡ some r) × Sized q r
unfolding mix_step
mix_step-Sized tid mem fetch h ok legal = (
  busy mem (first (get_or mem.sig tid 0)),
  rw (get_elem?-eq-get_or mem.sig tid 0 (omega (arith, ok.sigs))) refl,
  (ok, tt, omega arith),
)
mix_step-Sized tid mem (first num) h ok legal = (
  busy mem (second (mix num (get_or mem.m (num % max_elem) 0))),
  rw (get_elem?-eq-get_or mem.m (num % max_elem) 0 (omega (arith, ok.cells))) refl,
  (ok, tt, omega arith),
)
mix_step-Sized tid mem (second num) h ok legal = (
  busy mem (put (num % max_elem) (mix num (get_or mem.m (num % max_elem) 0))),
  rw (get_elem?-eq-get_or mem.m (num % max_elem) 0 (omega (arith, ok.cells))) refl,
  (ok, (omega arith, mix-lt num _), omega arith),
)
mix_step-Sized tid mem (put index2 num) h ok legal = (
  busy (record mem { m = set mem.m index2 num }) (save num),
  rw (set?-eq-set mem.m index2 num (omega (arith, ok.cells))) refl,
  (record { sigs = ok.sigs; cells = length-set mem.m index2 num ∙ ok.cells }, legal.1, omega arith),
)
mix_step-Sized tid mem (save num) h ok legal = (
  over (record mem { sig = set mem.sig tid num }),
  rw (set?-eq-set mem.sig tid num (omega (arith, ok.sigs))) refl,
  record { sigs = length-set mem.sig tid num ∙ ok.sigs; cells = ok.cells },
)

-- Behind the first barrier and not yet at the second.
abbrev pub in_loop : Pc → Bool
in_loop (mixing i k q) = true
in_loop (signalling i) = true
in_loop coming_back = true
in_loop _ = false

-- A legal point of a thread of the program.
abbrev pub IsPc : Pc → Type 0
IsPc (mixing i k q) = IsMixing q
IsPc _ = Unit

-- A handler runs in a thread of the program, at a legal point.
abbrev pub IsFrame : ℕ → ℕ → Option Frame → Type 0
IsFrame num_procs t none = Unit
IsFrame num_procs t (some frame) = (t ≤ num_procs) × IsMixing frame.point

pub next_inner-in_loop :
    (max_loop i k : ℕ) → (in_loop (next_inner max_loop i k) ≡ true) × IsPc (next_inner max_loop i k)
unfolding next_inner
next_inner-in_loop max_loop i k = ground arith

pub next_batch-in_loop :
    (max_loop i : ℕ) → (in_loop (next_batch max_loop i) ≡ true) × IsPc (next_batch max_loop i)
unfolding next_batch
next_batch-in_loop max_loop i = ground (arith, next_inner-in_loop max_loop i 0)

pub next_frame-IsFrame : (n t rounds : ℕ) → t ≤ n → IsFrame n t (next_frame rounds)
next_frame-IsFrame n t zero h = tt
next_frame-IsFrame n t (suc rounds) h = (h, tt)

module _ (num_procs tid : ℕ) where
  pub data Move (s : Shared) : Pc → Shared → Pc → Type 0 where
    store :
        tid < length s.thread_selfs
        → Move s storing_self (record s { thread_selfs = set s.thread_selfs tid true }) installing
    install : Move s installing (record s { installed = true }) arriving
    arrive : Move s arriving (record s { arrived = suc s.arrived }) passing
    pass : {p' : Pc} → num_procs ≤ s.arrived → in_loop p' ≡ true → IsPc p' → Move s passing s p'
    mixes :
        {i k : ℕ} {q : Mixing} {mem : Memory} {p' : Pc}
        → HasSizes mem
        → in_loop p' ≡ true
        → IsPc p'
        → Move s (mixing i k q) (record s { mem = mem }) p'
    kills :
        {i : ℕ} {p' : Pc} (target : ℕ)
        → in_loop p' ≡ true
        → IsPc p'
        → Move s (signalling i) (record s { pending = update s.pending target true }) p'
    come_back : Move s coming_back (record s { arrived = suc s.arrived }) leaving
    leave :
        2 * num_procs ≤ s.arrived
        → Move s leaving (record s { dead = update s.dead tid true }) ended
    handle :
        {p : Pc} (mem : Memory) (frame : Option Frame)
        → HasSizes mem
        → IsFrame num_procs tid frame
        → Move s p (handled s mem tid frame) p
    deliver_to :
        (t : ℕ)
        → t ≤ num_procs
        → Move s delivering
            (record s {
              pending = update s.pending t false;
              frames = update s.frames t (some (record { rounds = 99; point = fetch }));
            })
            delivering

  abbrev pub MoveOf : Shared → Pc → Turn Shared Pc → Type 0
  MoveOf s p (moved s' p') = Move s p s' p'
  MoveOf s p waiting = Unit
  MoveOf s p halted = Unit
  MoveOf s p fault = ⊥

  pub handler_turn-MoveOf :
      (s : Shared) (p : Pc) (rounds : ℕ) (q : Mixing) (r : Round)
      → tid ≤ num_procs
      → Sized q r
      → MoveOf s p (handler_turn s tid p rounds (some r))
  handler_turn-MoveOf s p rounds q (busy mem q') h (ok, legal, less) = handle mem _ ok (h, legal)
  handler_turn-MoveOf s p rounds q (over mem) h ok =
      handle mem (next_frame rounds) ok (next_frame-IsFrame num_procs tid rounds h)

  pub after_mix-MoveOf :
      (max_loop : ℕ) (s : Shared) (i k : ℕ) (q : Mixing) (r : Round)
      → Sized q r
      → MoveOf s (mixing i k q) (after_mix max_loop s i k (some r))
  after_mix-MoveOf max_loop s i k q (busy mem q') (ok, legal, less) = mixes ok refl legal
  after_mix-MoveOf max_loop s i k q (over mem) ok =
      let (inside, legal) = next_inner-in_loop max_loop (suc i) (suc k) in mixes ok inside legal

  -- Both ways of a test.
  pub either-MoveOf :
      (s : Shared) (p : Pc) (t u : Turn Shared Pc) (b : Bool)
      → (b ≡ true → MoveOf s p t)
      → (b ≡ false → MoveOf s p u)
      → MoveOf s p (if b then t else u)
  either-MoveOf s p t u true h k = h refl
  either-MoveOf s p t u false h k = k refl

  pub deliver-MoveOf :
      (s : Shared) (t : ℕ) (due : Bool) (o : Option Frame)
      → t ≤ num_procs
      → (due ≡ true → s.installed ≡ true)
      → MoveOf s delivering (deliver s t due o)
  deliver-MoveOf s t due (some frame) small h = tt
  deliver-MoveOf s t false none small h = tt
  deliver-MoveOf s t true none small h =
      either-MoveOf s delivering _ fault s.installed (λ e. deliver_to t small)
        (λ e. false≢true (sym e ∙ h refl))
