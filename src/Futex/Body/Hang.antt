-- ===== src/Futex/Body/Hang.antt =====
-- A way in which racey-futex.c comes to a standstill: the `owner` of a group names a thread that
-- does not take its turn any more, or that is none of the group, while the others wait for theirs.
use mathlib.Core.Path.{subst}
use mathlib.Core.Bool.{false≢true}
use racey_suite.Prelude.{
  ℕ, ◌+◌, ◌≤◌, ◌<◌, ◌≡◌, ◌≢◌, refl, Bool, true, false, Option, none, some, List, ◌++◌, get_or, set,
  get_elem?, set?, get_elem?-eq-get_or, get_or-set_ne, arith, ◌∙◌, sym, ap, pos, ltb, ◌==◌, update,
  update-each, ℕ_discrete, Bool-cases, inl, inr, u32,
}
use racey_suite.Outcome.{returned, unfinished}
use racey_suite.Machine.{
  Turn, moved, waiting, halted, fault, System, Step, pick, start, run, run_and_join, all_ended,
}
use racey_suite.Machine.Laws.{Reach_inv, run_total, run-Reach, run-append}
use racey_suite.Machine.Liveness.{all_ended-eq-true}
use racey_suite.Futex.{FutexGroup}
use racey_suite.Futex.Points.{
  Queue, Shared, Pc, arriving, passing, reading_owner, leading, reading_round, turn, waiting_owner,
  asleep_owner, mucking, ended, same_int,
}
use racey_suite.Futex.Body.{
  woken, futex_wait, store_sig, muck, body_step, futex_step, is_ended, boot,
}
use racey_suite.Futex.Body.Invariant.{no_group, group_at, Inv, IsStart, Move-Inv}
use racey_suite.Futex.Body.Move.{
  Move, MoveOf, arrives, passes, goes_on, writes, schedules, sleeps, removes,
}
use racey_suite.Futex.Body.Safety.{room, turn-MoveOf, Reach-Inv, futex-IsSafe}

-- A thread `t` other than `p` that waits for its turn, or one that has ended.
abbrev pub Idles : ℕ → ℕ → ℕ → Pc → Type 0
Idles max_loop p t (reading_owner i) = (i < max_loop) × (p ≢ t)
Idles max_loop p t (waiting_owner i owner) = (i < max_loop) × (p ≢ t)
Idles max_loop p t (asleep_owner i) = (i < max_loop) × (p ≢ t)
Idles max_loop p t (mucking i) = (i < max_loop) × (p ≢ t)
Idles max_loop p t ended = Unit
Idles max_loop p t _ = ⊥

-- The owner of group `h` is `p`, all threads of the group idle, and `victim` has not ended.
pub record Standstill (home : ℕ → ℕ) (n max_loop h p victim : ℕ) (c : System Shared Pc)
    : Type 0 where
  pub owned : (group_at c.shared h).owner ≡ pos p
  pub idle : (t : ℕ) → 1 ≤ t → t ≤ n → home t ≡ h → Idles max_loop p t (c.locals t)
  pub first : 1 ≤ victim
  pub last : victim ≤ n
  pub inside : home victim ≡ h
  pub waits : is_ended (c.locals victim) ≡ false

module _ (max_loop p t : ℕ) where
  -- What a turn of a thread that idles leaves.
  abbrev StaysIdle : Shared → Pc → Turn Shared Pc → Type 0
  StaysIdle s q (moved s' q') =
      (s'.groups ≡ s.groups) × Idles max_loop p t q' × (is_ended q ≡ is_ended q')
  StaysIdle s q waiting = Unit
  StaysIdle s q halted = Unit
  StaysIdle s q fault = Unit

  woken-StaysIdle :
      (spurious : Bool) (s : Shared) (i : ℕ) (o : Option Queue)
      → (i < max_loop) × (p ≢ t)
      → StaysIdle s (asleep_owner i) (woken spurious s t (mucking i) o)
  woken-StaysIdle spurious s i none idle = (refl, idle, refl)
  woken-StaysIdle true s i (some q) idle = (refl, idle, refl)
  woken-StaysIdle false s i (some q) idle = tt

  wait-StaysIdle :
      (same : Bool) (s : Shared) (i : ℕ) (q : Queue) (r : Pc)
      → (i < max_loop) × (p ≢ t)
      → is_ended r ≡ false
      → StaysIdle s r (futex_wait s t q same (asleep_owner i) (mucking i))
  wait-StaysIdle true s i q r idle live = (refl, idle, live)
  wait-StaysIdle false s i q r idle live = (refl, idle, live)

  muck-StaysIdle :
      (s : Shared) (i : ℕ) (o : Option ℕ)
      → (i < max_loop) × (p ≢ t)
      → StaysIdle s (mucking i) (muck max_loop t i s o)
  muck-StaysIdle s i none idle = tt
  muck-StaysIdle s i (some num) idle = stored (set? s.mem.sig t (u32 (num + 1)))
    where
      stored : (o : Option (List ℕ)) → StaysIdle s (mucking i) (store_sig max_loop i s o)
      stored none = tt
      stored (some sigs) =
          let more : ltb i max_loop ≡ true = ground arith in rw more (refl, idle, refl)

  body_step-StaysIdle :
      (n h : ℕ) (spurious : Bool) (s : Shared) (g : FutexGroup) (q : Pc)
      → g.owner ≡ pos p
      → Idles max_loop p t q
      → StaysIdle s q (body_step n max_loop spurious t h s q g)
  unfolding body_step
  body_step-StaysIdle n h spurious s g (reading_owner i) owned (more, other) =
      let not_mine : (p == t) ≡ false = ground arith in
      rw (owned, not_mine) (refl, (more, other), refl)
  body_step-StaysIdle n h spurious s g arriving owned idle = elim idle [ ]
  body_step-StaysIdle n h spurious s g passing owned idle = elim idle [ ]
  body_step-StaysIdle n h spurious s g (leading i owner k) owned idle = elim idle [ ]
  body_step-StaysIdle n h spurious s g (reading_round i owner leader) owned idle = elim idle [ ]
  body_step-StaysIdle n h spurious s g (turn i v q) owned idle = elim idle [ ]
  body_step-StaysIdle n h spurious s g (waiting_owner i owner) owned idle =
      wait-StaysIdle (same_int g.owner owner) s i _ (waiting_owner i owner) idle refl
  body_step-StaysIdle n h spurious s g (asleep_owner i) owned idle =
      woken-StaysIdle spurious s i (s.sleeping t) idle
  body_step-StaysIdle n h spurious s g (mucking i) owned idle =
      muck-StaysIdle s i (get_elem? s.mem.sig t) idle
  body_step-StaysIdle n h spurious s g ended owned idle = tt

-- The groups of the others stay as they are.
pub other_group :
    {n max_loop i h j : ℕ} {s s' : Shared} {g : FutexGroup} {q q' : Pc}
    → Move n max_loop i h s g q s' q'
    → h ≢ j
    → group_at s' j ≡ group_at s j
other_group {i = i} {h = h} {j = j} {s = s} {g = g} (schedules owner round inside fits) apart =
    get_or-set_ne s.groups h j (record g { owner = owner; round = round }) no_group apart
other_group {i = i} {h = h} {j = j} {s = s} {g = g} (removes fits) apart =
    get_or-set_ne s.groups h j (record g { threads = set g.threads i 0 }) no_group apart
other_group arrives apart = refl
other_group (passes ready fits) apart = refl
other_group (goes_on inside fits) apart = refl
other_group (writes mem ok inside fits) apart = refl
other_group (sleeps f inside fits) apart = refl

module _ (home : ℕ → ℕ) (n max_loop : ℕ) (spurious : Bool) (gs : List FutexGroup) (few : n ≤ 32)
    (loops : 1 ≤ max_loop) (begins : IsStart home n gs) (h p victim : ℕ) where
  -- A well-formed state in which the group is at a standstill.
  record Stuck (c : System Shared Pc) : Type 0 where
    formed : Inv home n max_loop c
    hangs : Standstill home n max_loop h p victim c

  own_step :
      (c : System Shared Pc) (i : ℕ) (s : Shared) (q : Pc)
      → 1 ≤ i
      → i ≤ n
      → home i ≡ h
      → Stuck c
      → futex_step home n max_loop spurious i c.shared (c.locals i) ≡ moved s q
      → (s.groups ≡ c.shared.groups) × Idles max_loop p i q × (is_ended (c.locals i) ≡ is_ended q)
  unfolding futex_step
  own_step c i s q l k mine st e =
      let owned : (group_at c.shared (home i)).owner ≡ pos p = rw mine st.hangs.owned in
      subst (StaysIdle max_loop p i c.shared (c.locals i)) e (
        rw
          (get_elem?-eq-get_or c.shared.groups (home i) no_group
            (room st.formed few begins.homes i l k))
          (body_step-StaysIdle max_loop p i n (home i) spurious c.shared
            (group_at c.shared (home i)) (c.locals i) owned (st.hangs.idle i l k mine)))

  Step-Standstill :
      (c : System Shared Pc) (i : ℕ) (s : Shared) (q : Pc)
      → 1 ≤ i
      → i ≤ n
      → futex_step home n max_loop spurious i c.shared (c.locals i) ≡ moved s q
      → Move n max_loop i (home i) c.shared (group_at c.shared (home i)) (c.locals i) s q
      → Stuck c
      → Standstill home n max_loop h p victim (record { shared = s; locals = update c.locals i q })
  Step-Standstill c i s q l k e mv st = elim (ℕ_discrete (home i) h) [
    | yes mine ↦
        let (same, idle, stay) = own_step c i s q l k mine st e in
        after (ap (λ gs. (get_or gs h no_group).owner) same) (λ u. idle)
          (λ u. sym stay ∙ ap (λ t. is_ended (c.locals t)) u)
    | no apart ↦
        after (ap (λ g. g.owner) (other_group mv apart)) (λ u. absurd (apart u))
          (λ u. absurd (apart (ap home u ∙ st.hangs.inside)))
  ]
    where
      after :
          (group_at s h).owner ≡ (group_at c.shared h).owner
          → (home i ≡ h → Idles max_loop p i q)
          → (i ≡ victim → is_ended q ≡ is_ended (c.locals victim))
          → Standstill home n max_loop h p victim
              (record { shared = s; locals = update c.locals i q })
      after same idle stay = record {
        owned = same ∙ st.hangs.owned;
        idle = λ t a b u.
            update-each (λ t r. home t ≡ h → Idles max_loop p t r) c.locals i q idle t
              (λ v. st.hangs.idle t a b v) u;
        first = st.hangs.first;
        last = st.hangs.last;
        inside = st.hangs.inside;
        waits =
            update-each (λ t r. t ≡ victim → is_ended r ≡ is_ended (c.locals victim)) c.locals i q
              stay victim (λ u. ap (λ t. is_ended (c.locals t)) u) refl
            ∙ st.hangs.waits;
      }

  Step-Stuck :
      (c d : System Shared Pc)
      → Step (futex_step home n max_loop spurious) n c d
      → Stuck c
      → Stuck d
  Step-Stuck c d (pick i {s} {l = q} l k e) st =
      let mv =
        subst (MoveOf n max_loop i (home i) c.shared (group_at c.shared (home i)) (c.locals i)) e
          (turn-MoveOf st.formed few begins.homes i l k spurious loops) in
      record {
        formed = Move-Inv st.formed few begins.homes i l k mv refl;
        hangs = Step-Standstill c i s q l k e mv st;
      }

  never_all_ended : (c : System Shared Pc) → Stuck c → all_ended is_ended n c.locals ≡ false
  never_all_ended c st = elim (Bool-cases (all_ended is_ended n c.locals)) [
    | inr e ↦ e
    | inl e ↦ absurd (
        false≢true (
          sym st.hangs.waits
          ∙ all_ended-eq-true is_ended n c.locals e victim st.hangs.first st.hangs.last))
  ]

  -- If a schedule leads to a state in which the `owner` of a group names a thread that is none of
  -- the group or has ended, while all others of the group that have not ended wait for their turn,
  -- and there are such, then no way to go on lets all threads of racey-futex end.
  pub futex_hangs :
      (schedule : List ℕ) (c : System Shared Pc)
      → run (futex_step home n max_loop spurious) n schedule (boot gs) ≡ returned c
      → Standstill home n max_loop h p victim c
      → (rest : List ℕ)
      → run_and_join (futex_step home n max_loop spurious) is_ended n (schedule ++ rest) (boot gs)
        ≡ unfinished
  unfolding run_and_join
  futex_hangs schedule c e hangs rest =
      let prog = futex_step home n max_loop spurious in
      let reached = run-Reach prog n schedule (boot gs) c start e in
      let (d, f, r) =
        run_total prog n (futex-IsSafe home n max_loop spurious gs few loops begins) rest c
          reached in
      let st =
        Reach_inv prog n Stuck Step-Stuck
          (record {
            formed = Reach-Inv home n max_loop spurious gs few loops begins reached;
            hangs = hangs;
          })
          (run-Reach prog n rest c d start f) in
      rw (run-append prog n schedule rest (boot gs), e, f, never_all_ended d st) refl
