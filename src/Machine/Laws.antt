-- ===== src/Machine/Laws.antt =====
-- The invariant rule, and what a run by a schedule reaches.
use racey_suite.Prelude.{
  ℕ, ◌≤◌, ◌≡◌, ◌≢◌, refl, List, [], ◌∷◌, Bool, true, ◌&&◌, arith, update, Bool-cases, inl, inr, leb,
  if◌then◌else◌, sym, ◌++◌,
}
use racey_suite.Outcome.{Outcome, returned, crashed, unfinished, ◌>>=◌, >>=-eq-returned}
use mathlib.Core.Path.{subst}
use racey_suite.Machine.{
  Turn, moved, waiting, halted, fault, Program, System, Step, pick, Reach, start, later, act, turn,
  run, all_ended, run_and_join,
}

returned≢crashed {ℓ} : {A : Type ℓ} {a : A} → returned a ≢ crashed
returned≢crashed e = cc

module _ {S L : Type 0} (prog : Program S L) (n : ℕ) where
  -- A property of the start that every step keeps holds in every reachable state.
  pub Reach_inv :
      (P : System S L → Type 0)
      → ((c d : System S L) → Step prog n c d → P c → P d)
      → {init c : System S L} → P init
      → Reach prog n init c
      → P c
  Reach_inv P keep p start = p
  Reach_inv P keep p (later {c = b} {d = d} r st) = keep b d st (Reach_inv P keep p r)

  pub Reach-trans : {a b c : System S L} → Reach prog n a b → Reach prog n b c → Reach prog n a c
  Reach-trans r start = r
  Reach-trans r (later q st) = later (Reach-trans r q) st

  -- What a turn can come to.
  data TurnResult (c : System S L) (i : ℕ) (o : Outcome (System S L)) : Type 0 where
    stays : o ≡ returned c → TurnResult c i o
    steps : (d : System S L) → o ≡ returned d → Step prog n c d → TurnResult c i o
    crashes : o ≡ crashed → 1 ≤ i → i ≤ n → prog i c.shared (c.locals i) ≡ fault → TurnResult c i o

  act_result :
      (c : System S L) (i : ℕ)
      → 1 ≤ i
      → i ≤ n
      → (t : Turn S L) → prog i c.shared (c.locals i) ≡ t
      → TurnResult c i (act c i t)
  act_result c i l h (moved s k) e = steps _ refl (pick i l h e)
  act_result c i l h waiting e = stays refl
  act_result c i l h halted e = stays refl
  act_result c i l h fault e = crashes refl l h e

  turn_result : (c : System S L) (i : ℕ) → TurnResult c i (turn prog n c i)
  unfolding turn
  turn_result c i = elim (Bool-cases (leb 1 i && leb i n)) [
    | inl e ↦ rw e (act_result c i (ground arith) (ground arith) _ refl)
    | inr e ↦ rw e (stays refl)
  ]

  -- What a run returns is reachable.
  pub run-Reach :
      {init : System S L} (is : List ℕ) (c d : System S L)
      → Reach prog n init c
      → run prog n is c ≡ returned d
      → Reach prog n init d
  unfolding run
  run-Reach {init} [] c d r e = let same : c ≡ d = cc in subst (Reach prog n init) same r
  run-Reach (i ∷ is) c d r e = elim (turn_result c i) [
    | stays q ↦ run-Reach is c d r (rw q at e)
    | steps c' q st ↦ run-Reach is c' d (later r st) (rw q at e)
    | crashes q l h f ↦ absurd (returned≢crashed (sym (rw q at e)))
  ]

  -- No thread is about to make an access out of bounds.
  abbrev pub IsSafe : System S L → Type 0
  IsSafe c = (i : ℕ) → 1 ≤ i → i ≤ n → prog i c.shared (c.locals i) ≢ fault

  -- If no reachable state lets a thread fault, every schedule can be run to its end.
  pub run_total :
      {init : System S L}
      → ((c : System S L) → Reach prog n init c → IsSafe c)
      → (is : List ℕ) (c : System S L) → Reach prog n init c
      → (d : System S L) × (run prog n is c ≡ returned d) × Reach prog n init d
  unfolding run
  run_total safe [] c r = (c, refl, r)
  run_total safe (i ∷ is) c r = elim (turn_result c i) [
    | stays q ↦ rw q (run_total safe is c r)
    | steps d q st ↦ rw q (run_total safe is d (later r st))
    | crashes q l h f ↦ absurd (safe c r i l h f)
  ]

  pub run-append :
      (is js : List ℕ) (c : System S L)
      → run prog n (is ++ js) c ≡ (run prog n is c >>= λ d. run prog n js d)
  unfolding run
  run-append [] js c = refl
  run-append (i ∷ is) js c = elim (turn_result c i) [
    | stays q ↦ rw q (run-append is js c)
    | steps d q st ↦ rw q (run-append is js d)
    | crashes q l h f ↦ rw q refl
  ]

  -- A step is one turn of its thread.
  pub turn-pick :
      (c : System S L) (i : ℕ) {s : S} {l : L}
      → 1 ≤ i
      → i ≤ n
      → prog i c.shared (c.locals i) ≡ moved s l
      → turn prog n c i ≡ returned (record { shared = s; locals = update c.locals i l })
  unfolding turn
  turn-pick c i l h e = rw e (ground arith)

  -- Every reachable state is where some schedule ends.
  pub Reach-run :
      {init c : System S L}
      → Reach prog n init c
      → (is : List ℕ) × (run prog n is init ≡ returned c)
  Reach-run start = ([], unfold run in refl)
  Reach-run {init} (later {c = c} r (pick i l h e)) =
      let (is, q) = Reach-run r in
      (is ++ i ∷ [], rw (run-append is (i ∷ []) init, q) (unfold run in rw (turn-pick c i l h e)))

-- What `run_and_join` returns is the memory of a reachable state in which all threads have ended.
pub run_and_join_lem :
    {S L : Type 0} (prog : Program S L) (ended : L → Bool) (n : ℕ) (is : List ℕ) (init : System S L)
    {s : S}
    → run_and_join prog ended n is init ≡ returned s
    → (c : System S L) × Reach prog n init c × (all_ended ended n c.locals ≡ true) × (c.shared ≡ s)
unfolding run_and_join
run_and_join_lem {S} {L} prog ended n is init {s} e =
    let (c, q, h) = >>=-eq-returned (run prog n is init) _ e in
    let (done, same) = finished c h in (c, run-Reach prog n is init c start q, done, same)
  where
    finished :
        (c : System S L)
        → (if all_ended ended n c.locals then returned c.shared else unfinished) ≡ returned s
        → (all_ended ended n c.locals ≡ true) × (c.shared ≡ s)
    finished c h = ground arith
