-- ===== src/Machine/Liveness.antt =====
-- From threads that can come nearer to their end to a schedule under which all end.
use racey_suite.Prelude.{
  ℕ, zero, suc, ◌+◌, ◌≤◌, ◌<◌, ◌≡◌, refl, List, Bool, true, false, arith, total, total-update,
  Bool-cases, inl, inr, dec_le,
}
use racey_suite.Outcome.{returned}
use racey_suite.Machine.{moved, Program, System, pick, Reach, start, later, all_ended, run_and_join}
use racey_suite.Machine.Laws.{Reach-run, Reach-trans}

pub all_ended-eq-true :
    {L : Type 0} (ended : L → Bool) (n : ℕ) (locals : ℕ → L)
    → all_ended ended n locals ≡ true
    → (i : ℕ) → 1 ≤ i
    → i ≤ n
    → ended (locals i) ≡ true
all_ended-eq-true ended zero locals e i l h = absurd (omega arith)
all_ended-eq-true ended (suc n) locals e i l h = elim (dec_le i n) [
  | yes below ↦ all_ended-eq-true ended n locals (ground arith) i l below
  | no last ↦ ground arith
]

pub all_ended-eq-false :
    {L : Type 0} (ended : L → Bool) (n : ℕ) (locals : ℕ → L)
    → all_ended ended n locals ≡ false
    → (i : ℕ) × (1 ≤ i) × (i ≤ n) × (ended (locals i) ≡ false)
all_ended-eq-false ended zero locals e = absurd (cc)
all_ended-eq-false ended (suc n) locals e = elim (Bool-cases (ended (locals (suc n)))) [
  | inr live ↦ (suc n, omega arith, omega arith, live)
  | inl dead ↦
      let (i, l, h, live) = all_ended-eq-false ended n locals (rw dead at e) in
      (i, l, omega arith, live)
]

-- Thread i can make a move after which its own code is nearer to the end.
pub record CanAdvance {S L : Type 0} (prog : Program S L) (work : L → ℕ) (n : ℕ) (c : System S L)
    : Type 0 where
  pub thread : ℕ
  pub first : 1 ≤ thread
  pub last : thread ≤ n
  pub memory : S
  pub local : L
  pub moves : prog thread c.shared (c.locals thread) ≡ moved memory local
  pub less : work local < work (c.locals thread)

-- The same, where a move may also use up what the shared memory has left.
pub record CanProgress {S L : Type 0} (prog : Program S L) (left : S → ℕ) (work : L → ℕ) (n : ℕ)
    (c : System S L) : Type 0 where
  pub thread : ℕ
  pub first : 1 ≤ thread
  pub last : thread ≤ n
  pub memory : S
  pub local : L
  pub moves : prog thread c.shared (c.locals thread) ≡ moved memory local
  pub less : left memory + work local < left c.shared + work (c.locals thread)

module _ {S L : Type 0} (prog : Program S L) (ended : L → Bool) (left : S → ℕ) (work : L → ℕ)
    (n : ℕ) {init : System S L}
    (progress : (c : System S L)
      → Reach prog n init c
      → all_ended ended n c.locals ≡ false
      → CanProgress prog left work n c) where
  ends_from :
      (fuel : ℕ) (c : System S L)
      → left c.shared + total work n c.locals < fuel
      → Reach prog n init c
      → (d : System S L) × Reach prog n c d × (all_ended ended n d.locals ≡ true)
  ends_from zero c h r = absurd (omega arith)
  ends_from (suc fuel) c h r = elim (Bool-cases (all_ended ended n c.locals)) [
    | inl done ↦ (c, start, done)
    | inr more ↦
        let a = progress c r more in
        let st = pick a.thread a.first a.last a.moves in
        let (d, q, done) =
          ends_from fuel _
            (omega (arith, a.less, total-update work n c.locals a.thread a.local a.first a.last))
            (later r st) in
        (d, Reach-trans prog n (later start st) q, done)
  ]

  -- From every reachable state the threads can all come to their end.
  pub can_end_after :
      (c : System S L)
      → Reach prog n init c
      → (d : System S L) × Reach prog n c d × (all_ended ended n d.locals ≡ true)
  can_end_after c r = ends_from (suc (left c.shared + total work n c.locals)) c (omega arith) r

  -- So some schedule makes `run_and_join` return.
  pub can_join_after : (is : List ℕ) × (s : S) × (run_and_join prog ended n is init ≡ returned s)
  unfolding run_and_join
  can_join_after =
      let (d, r, done) = can_end_after init start in
      let (is, q) = Reach-run prog n r in (is, d.shared, rw (q, done) refl)

module _ {S L : Type 0} (prog : Program S L) (ended : L → Bool) (work : L → ℕ) (n : ℕ)
    {init : System S L}
    (advance : (c : System S L)
      → Reach prog n init c
      → all_ended ended n c.locals ≡ false
      → CanAdvance prog work n c) where
  as_progress :
      (c : System S L)
      → Reach prog n init c
      → all_ended ended n c.locals ≡ false
      → CanProgress prog (λ s. 0) work n c
  as_progress c r e =
      let a = advance c r e in
      record {
        thread = a.thread;
        first = a.first;
        last = a.last;
        memory = a.memory;
        local = a.local;
        moves = a.moves;
        less = omega (arith, a.less);
      }

  -- The same for threads whose work is all their own.
  pub can_end :
      (c : System S L)
      → Reach prog n init c
      → (d : System S L) × Reach prog n c d × (all_ended ended n d.locals ≡ true)
  can_end c r = can_end_after prog ended (λ s. 0) work n as_progress c r

  pub can_join : (is : List ℕ) × (s : S) × (run_and_join prog ended n is init ≡ returned s)
  can_join = can_join_after prog ended (λ s. 0) work n as_progress
