-- ===== src/TcpServer/Server.antt =====
-- What holds in every reachable state of racey-tcp-server.c, against a stack of connections.
use mathlib.Core.Path.{subst}
use mathlib.Core.Bool.{false≢true}
use racey_suite.Prelude.{
  ℕ, suc, ◌+◌, ◌≤◌, ◌≡◌, ◌≢◌, refl, dec_lt, ℤ, pos, negsuc, Bool, true, false, Option, none, some,
  List, [], ◌∷◌, length, arith, ◌∙◌, ap, sym, total, total_const, leb, if◌then◌else◌,
}
use racey_suite.Machine.{System, Step, pick, Reach, fault}
use racey_suite.Machine.Laws.{Reach_inv}
use racey_suite.TcpServer.{
  SocketCalls, Shared, Pc, starting, looking, fetching, clearing, placing, releasing, worker_num,
  tcp_step, boot,
}
use racey_suite.TcpServer.Table.{
  Table, Table-fd_at, Table-clear, Table-place, Table-length, next_index,
}
use racey_suite.TcpServer.Move.{
  Fault, bad_look, bad_get, bad_clear, bad_place, MoveOf, tcp_step-MoveOf,
}
use racey_suite.TcpServer.Held.{
  Inv, in_table, in_file, lifted, carried, sum, accepted, Knows, pool_after,
}
use racey_suite.TcpServer.Stack.{only_lift, none≢some, none≢some_fd}
use racey_suite.TcpServer.Invariant.{Move-Inv}

-- No thread has begun to work on the table.
module _ (tid : ℕ) where
  abbrev first_pc : Pc
  first_pc = if leb tid worker_num then starting else releasing

  first-out : (in_table first_pc ≡ false) × (in_file first_pc ≡ false)
  first-out = ground arith

  first-lifted : lifted first_pc ≡ 0
  first-lifted = ground arith

  first-carried : (w : ℤ → ℕ) → carried w first_pc ≡ 0
  first-carried w = ground arith

  first-Knows : Knows [] first_pc
  first-Knows = known (leb tid worker_num)
    where
      known : (b : Bool) → Knows [] (if b then starting else releasing)
      known true = tt
      known false = tt

pub boot-Inv : (io : SocketCalls) → Inv io [] boot
boot-Inv io = record {
  table =
      subst (λ k. Table boot.shared.client_fds (negsuc 0) k [])
        (sym (total_const lifted (suc worker_num) first_pc 0 (λ i l h. first-lifted i)))
        (record {
          rest = boot.shared.client_fds;
          shape = refl;
          blank =
              (refl, (refl, (refl, (refl, (refl, (refl, (refl, (refl, (refl, (refl, tt))))))))));
          size = refl;
          index = refl;
        });
  holds = λ i e. absurd (false≢true (sym (first-out i).0 ∙ e));
  files = λ i e. absurd (false≢true (sym (first-out i).1 ∙ e));
  knows = first-Knows;
  kept = λ w.
      omega
        (arith, total_const (carried w) (suc worker_num) first_pc 0 (λ i l h. first-carried i w));
}

module _ (io : SocketCalls) where
  abbrev pub Reachable : System Shared Pc → Type 0
  Reachable c = Reach (tcp_step io) (suc worker_num) boot c

  abbrev Standing : System Shared Pc → Type 0
  Standing c = (stack : List ℤ) × Inv io stack c

  Step-Standing :
      (c d : System Shared Pc) → Step (tcp_step io) (suc worker_num) c d → Standing c → Standing d
  Step-Standing c d (pick i l h e) (stack, inv) =
      let mv =
        subst (MoveOf io i c.shared (c.locals i)) e (tcp_step-MoveOf io i c.shared (c.locals i)) in
      (pool_after (c.locals i) stack, Move-Inv inv i l h mv)

  Reach-Standing : {c : System Shared Pc} → Reachable c → Standing c
  Reach-Standing = Reach_inv (tcp_step io) (suc worker_num) Standing Step-Standing ([], boot-Inv io)

  -- Nobody has the index raised while the table is not locked.
  pub unlocked :
      {c : System Shared Pc} {stack : List ℤ}
      → Inv io stack c
      → c.shared.table_owner ≡ none
      → Table c.shared.client_fds c.shared.client_idx 0 stack
  unlocked {c} {stack} inv free =
      subst (λ k. Table c.shared.client_fds c.shared.client_idx k stack)
        (total_const lifted (suc worker_num) c.locals 0
          (λ i l h. at_rest (c.locals i) (λ e. none≢owner (sym free ∙ inv.holds i e))))
        inv.table
    where
      none≢owner : {i : ℕ} → ◌≢◌ {A = Option ℕ} none (some i)
      none≢owner e = cc

      at_rest : (p : Pc) → in_table p ≢ true → lifted p ≡ 0
      at_rest p e = ground arith

  -- In every reachable state, whatever weight is given to descriptors, those that `accept` returned
  -- weigh what the connections of the table, the threads and those that were closed weigh together:
  -- no connection is lost and none is handed to two workers. The connections of the table are a
  -- stack in `client_fds`, and `client_idx` is the index of the last; only while a thread with the
  -- lock has raised it for an entry that it will write, or cleared the last entry, it is one more.
  pub tcp_server_keeps_connections :
      (c : System Shared Pc)
      → Reachable c
      → (stack : List ℤ) × Table c.shared.client_fds c.shared.client_idx
          (total lifted (suc worker_num) c.locals)
          stack
        × (c.shared.table_owner ≡ none → Table c.shared.client_fds c.shared.client_idx 0 stack)
        × ((w : ℤ → ℕ)
            → sum w (accepted io c.shared.accepts)
              ≡ sum w stack + total (carried w) (suc worker_num) c.locals + sum w c.shared.closed)
  tcp_server_keeps_connections c r =
      let (stack, inv) = Reach-Standing r in (stack, inv.table, unlocked inv, inv.kept)

  -- The accesses out of bounds that are left.
  pub data FaultCase (c : System Shared Pc) (i : ℕ) : Type 0 where
    empty_table : c.locals i ≡ looking → c.shared.client_idx ≡ negsuc 0 → FaultCase c i
    full_table :
        (fd : ℤ) → c.locals i ≡ placing fd → c.shared.client_idx ≡ pos worker_num → FaultCase c i

  Fault-FaultCase :
      {c : System Shared Pc} {stack : List ℤ} {p : Pc}
      → Inv io stack c
      → (i : ℕ) → 1 ≤ i
      → i ≤ suc worker_num
      → c.locals i ≡ p
      → Fault io i c.shared p
      → FaultCase c i
  Fault-FaultCase {c} {stack} inv i l h here (bad_look e) =
      looked stack (only_lift inv i l h looking here refl)
    where
      looked :
          (stack' : List ℤ) → Table c.shared.client_fds c.shared.client_idx 0 stack' → FaultCase c i
      looked [] t = empty_table here t.index
      looked (fd ∷ below) t = absurd (none≢some_fd (sym e ∙ Table-fd_at t))
  Fault-FaultCase {c} {stack} inv i l h here (bad_get e) =
      let (fd, below, known, more) = subst (Knows stack) here (inv.knows i) in
      let t =
        subst (Table c.shared.client_fds c.shared.client_idx 0) known
          (only_lift inv i l h fetching here refl) in
      absurd (none≢some_fd (sym e ∙ Table-fd_at t))
  Fault-FaultCase {c} {stack} inv i l h here (bad_clear fd e) =
      let (below, known, more) = subst (Knows stack) here (inv.knows i) in
      let t =
        subst (Table c.shared.client_fds c.shared.client_idx 0) known
          (only_lift inv i l h (clearing fd) here refl) in
      let (after, e', t') = Table-clear t in absurd (none≢some (sym e ∙ e'))
  Fault-FaultCase {c} {stack} inv i l h here (bad_place fd e) =
      let t = only_lift inv i l h (placing fd) here refl in
      elim (dec_lt (length stack) worker_num) [
        | yes room ↦ let (after, e', t') = Table-place fd t room in absurd (none≢some (sym e ∙ e'))
        | no none_left ↦ full_table fd here (next_index t ∙ ap pos (omega (arith, Table-length t)))
      ]

  -- In every reachable state, a thread that is about to make an access out of bounds is a worker
  -- that looks at the empty table, at client_fds[-1], or `main` with an eleventh connection, at
  -- client_fds[10].
  pub tcp_server_fault_cases :
      (c : System Shared Pc)
      → Reachable c
      → (i : ℕ) → 1 ≤ i
      → i ≤ suc worker_num
      → tcp_step io i c.shared (c.locals i) ≡ fault
      → FaultCase c i
  tcp_server_fault_cases c r i l h e =
      let (stack, inv) = Reach-Standing r in
      Fault-FaultCase inv i l h refl
        (subst (MoveOf io i c.shared (c.locals i)) e (tcp_step-MoveOf io i c.shared (c.locals i)))

  -- In every reachable state, at most one thread is between lock and unlock of `client_fds_lock`,
  -- and at most one between lock and unlock of `file_lock`.
  pub tcp_server_exclusion :
      (c : System Shared Pc)
      → Reachable c
      → (i j : ℕ)
      → (in_table (c.locals i) ≡ true → in_table (c.locals j) ≡ true → i ≡ j)
        × (in_file (c.locals i) ≡ true → in_file (c.locals j) ≡ true → i ≡ j)
  tcp_server_exclusion c r i j =
      let (stack, inv) = Reach-Standing r in
      (
        λ here there. same_owner (sym (inv.holds i here) ∙ inv.holds j there),
        λ here there. same_owner (sym (inv.files i here) ∙ inv.files j there),
      )
    where
      same_owner : {a b : ℕ} → some a ≡ some b → a ≡ b
      same_owner e = cc
