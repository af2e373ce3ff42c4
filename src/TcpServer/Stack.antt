-- ===== src/TcpServer/Stack.antt =====
-- The stack that the table of racey-tcp-server.c holds, behind each move.
use mathlib.Core.Path.{subst}
use racey_suite.Prelude.{
  ℕ, suc, ◌+◌, ◌≤◌, ◌<◌, ◌≡◌, ◌≢◌, refl, ℤ, pos, negsuc, Bool, true, false, Option, none, some,
  List, [], ◌∷◌, length, arith, ◌∙◌, ap, sym, update, total, total-update, total_only, dec_lt,
  if◌then◌else◌,
}
use racey_suite.Machine.{System}
use racey_suite.TcpServer.{
  chunk, SocketCalls, Shared, Pc, asking, fetching, clearing, lowering, taking, receiving, storing,
  freeing, closing, accepting, offering, raising, placing, placed, put_at, has_more, worker_num,
}
use racey_suite.TcpServer.Table.{
  Table, Table-up, Table-down, Table-clear, Table-place, Table-place_none, Table-length,
}
use racey_suite.TcpServer.Move.{
  Move, walk, ask, leave, hit, get, clear, lower, queue, write, unlock_file, close, connect, raise,
  place,
}
use racey_suite.TcpServer.Held.{
  in_table, lifted, Knows, pool_after, Walks-Quiet, Asks-Quiet, Leaves-Quiet, Inv,
}

pub none≢some : {v : List ℤ} → ◌≢◌ {A = Option (List ℤ)} none (some v)
none≢some e = cc

pub none≢some_fd : {v : ℤ} → ◌≢◌ {A = Option ℤ} none (some v)
none≢some_fd e = cc

pub some-injective : {v w : ℤ} → ◌≡◌ {A = Option ℤ} (some v) (some w) → v ≡ w
some-injective e = cc

module _ {io : SocketCalls} {stack : List ℤ} {c : System Shared Pc} (inv : Inv io stack c) (i : ℕ)
    (low : 1 ≤ i) (high : i ≤ suc worker_num) where
  open inv use {table, holds, knows}

  -- No other thread is in the table when one is.
  pub others_out : in_table (c.locals i) ≡ true → (j : ℕ) → i ≢ j → in_table (c.locals j) ≡ false
  others_out here j e = ground (arith, holds i, holds j)

  lifted-in_table : (p : Pc) → in_table p ≡ false → lifted p ≡ 0
  lifted-in_table p e = ground arith

  -- The index is raised by the thread in the table alone.
  pub only_lift :
      (p : Pc)
      → c.locals i ≡ p
      → in_table p ≡ true
      → Table c.shared.client_fds c.shared.client_idx (lifted p) stack
  only_lift p here e =
      subst (λ k. Table c.shared.client_fds c.shared.client_idx k stack)
        (total_only lifted (suc worker_num) c.locals i low high
            (λ j a b ne. lifted-in_table (c.locals j) (others_out (ap in_table here ∙ e) j ne))
          ∙ ap lifted here)
        table

  lift_after :
      (p' : Pc)
      → total lifted (suc worker_num) (update c.locals i p') + lifted (c.locals i)
        ≡ total lifted (suc worker_num) c.locals + lifted p'
  lift_after p' = total-update lifted (suc worker_num) c.locals i p' low high

  -- The index behind a move of a thread that is not in the table, or is.
  lift_kept :
      (p p' : Pc)
      → c.locals i ≡ p
      → lifted p ≡ lifted p'
      → Table c.shared.client_fds c.shared.client_idx
          (total lifted (suc worker_num) (update c.locals i p'))
          stack
  lift_kept p p' here e =
      subst (λ k. Table c.shared.client_fds c.shared.client_idx k stack)
        (omega (arith, lift_after p', ap lifted here, e)) table

  lift_moved :
      (p p' : Pc) {fds : List ℤ} {idx : ℤ} {after : List ℤ}
      → c.locals i ≡ p
      → in_table p ≡ true
      → Table fds idx (lifted p') after
      → Table fds idx (total lifted (suc worker_num) (update c.locals i p')) after
  lift_moved p p' {fds} {idx} {after} here e =
      subst (λ k. Table fds idx k after)
        (omega (
          arith,
          lift_after p',
          total_only lifted (suc worker_num) c.locals i low high
              (λ j a b ne. lifted-in_table (c.locals j) (others_out (ap in_table here ∙ e) j ne)),
        ))

  cleared :
      {fd : ℤ} {fds : List ℤ} (stack' : List ℤ)
      → Table c.shared.client_fds c.shared.client_idx 0 stack'
      → Knows stack' (clearing fd)
      → put_at c.shared.client_fds c.shared.client_idx (negsuc 0) ≡ some fds
      → Table fds c.shared.client_idx 1 (pool_after (clearing fd) stack')
  cleared [] t (below, e, more) done = cc
  cleared (top ∷ below) t k done =
      let (after, e, t') = Table-clear t in
      let same : after ≡ _ = cc in subst (λ x. Table x c.shared.client_idx 1 below) same t'

  pub placed_at :
      {fd : ℤ} {fds : List ℤ}
      → Table c.shared.client_fds c.shared.client_idx 1 stack
      → put_at c.shared.client_fds c.shared.client_idx fd ≡ some fds
      → (length stack < worker_num) × Table fds c.shared.client_idx 0 (fd ∷ stack)
  placed_at {fd} {fds} t done = elim (dec_lt (length stack) worker_num) [
    | yes room ↦
        let (after, e, t') = Table-place fd t room in
        let same : after ≡ fds = cc in
        (room, subst (λ x. Table x c.shared.client_idx 0 (fd ∷ stack)) same t')
    | no none_left ↦
        let e : length stack ≡ worker_num = omega (arith, Table-length t) in
        absurd (none≢some (sym (Table-place_none fd t e) ∙ done))
  ]

  pub Move-Table :
      {p p' : Pc} {s : Shared}
      → Move io i c.shared p s p'
      → c.locals i ≡ p
      → Table s.client_fds s.client_idx
          (total lifted (suc worker_num) (update c.locals i p'))
          (pool_after p stack)
  Move-Table {p} {p'} (walk q k) here =
      let quiet = (Walks-Quiet q).0 in
      rw (quiet.pool stack, k.fds, k.idx) (lift_kept p p' here (quiet.lift.0 ∙ sym quiet.lift.1))
  Move-Table {p} {p'} (ask a none_in) here =
      let quiet = (Asks-Quiet a).0 in
      rw (quiet.pool stack) (lift_kept p p' here (quiet.lift.0 ∙ sym quiet.lift.1))
  Move-Table {p} {p'} (leave l) here =
      let quiet = (Leaves-Quiet l).0 in
      rw (quiet.pool stack) (lift_kept p p' here (quiet.lift.0 ∙ sym quiet.lift.1))
  Move-Table (clear {fd} e) here =
      let here_known = subst (Knows stack) here (knows i) in
      lift_moved (clearing fd) (lowering fd) here refl
        (cleared stack (only_lift (clearing fd) here refl) here_known e)
  Move-Table (lower {fd}) here =
      lift_moved (lowering fd) (taking fd) here refl
        (Table-down (only_lift (lowering fd) here refl))
  Move-Table (raise {fd}) here =
      lift_moved (raising fd) (placing fd) here refl (Table-up (only_lift (raising fd) here refl))
  Move-Table (place {fd} e) here =
      lift_moved (placing fd) placed here refl (placed_at (only_lift (placing fd) here refl) e).1
  Move-Table (hit e more) here = lift_kept _ fetching here refl
  Move-Table (get {fd} e) here = lift_kept _ (clearing fd) here refl
  Move-Table (queue {fd} {n} e) here = lift_kept _ (storing fd n) here refl
  Move-Table (write {fd} {bytes}) here = lift_kept _ (freeing fd (chunk bytes)) here refl
  Move-Table (unlock_file {fd} {n}) here = lift_kept _ _ here (lift_more fd (has_more n))
    where
      lift_more : (fd : ℤ) (b : Bool) → 0 ≡ lifted (if b then receiving fd else closing fd)
      lift_more fd true = refl
      lift_more fd false = refl
  Move-Table (close {fd}) here = lift_kept (closing fd) asking here refl
  Move-Table (connect {fd} e) here = lift_kept accepting (offering (pos fd)) here refl
