-- ===== src/TcpServer/Known.antt =====
-- What a thread of racey-tcp-server.c knows of the last entry, behind each move.
use mathlib.Core.Path.{subst}
use racey_suite.Prelude.{
  ℕ, suc, ◌≤◌, ◌≡◌, ◌≢◌, refl, ℤ, pos, Bool, true, false, some, List, [], ◌∷◌, ◌∙◌, ap, sym, update,
  update-others, if◌then◌else◌,
}
use racey_suite.Machine.{System}
use racey_suite.TcpServer.{
  chunk, SocketCalls, Shared, Pc, asking, looking, fetching, clearing, lowering, taking, receiving,
  storing, freeing, closing, offering, placing, placed, fd_at, is_positive, has_more, worker_num,
}
use racey_suite.TcpServer.Table.{Table, Table-fd_at, Table-fd_at-none}
use racey_suite.TcpServer.Move.{
  Move, walk, ask, leave, hit, get, clear, lower, queue, write, unlock_file, close, connect, raise,
  place,
}
use racey_suite.TcpServer.Held.{
  in_table, Knows, pool_after, Walks-Quiet, Asks-Quiet, Leaves-Quiet, Inv,
}
use racey_suite.TcpServer.Stack.{others_out, only_lift, none≢some_fd, some-injective}

Knows-out : (stack : List ℤ) (p : Pc) → in_table p ≡ false → Knows stack p
Knows-out stack fetching e = cc
Knows-out stack (clearing fd) e = cc
Knows-out stack p e = tt

module _ {io : SocketCalls} {stack : List ℤ} {c : System Shared Pc} (inv : Inv io stack c) (i : ℕ)
    (low : 1 ≤ i) (high : i ≤ suc worker_num) where
  open inv use {knows}

  -- The last entry is what an access below finds.
  pub top_known :
      {fd : ℤ} (stack' : List ℤ)
      → Table c.shared.client_fds c.shared.client_idx 0 stack'
      → fd_at c.shared.client_fds c.shared.client_idx ≡ some fd
      → (below : List ℤ) × (stack' ≡ fd ∷ below)
  top_known [] t e = absurd (none≢some_fd (sym (Table-fd_at-none t) ∙ e))
  top_known {fd} (top ∷ below) t e =
      let same : top ≡ fd = some-injective (sym (Table-fd_at t) ∙ e) in
      (below, ap (λ x. x ∷ below) same)

  got :
      {fd : ℤ} (stack' : List ℤ)
      → Table c.shared.client_fds c.shared.client_idx 0 stack'
      → Knows stack' fetching
      → fd_at c.shared.client_fds c.shared.client_idx ≡ some fd
      → Knows stack' (clearing fd)
  got {fd} stack' t (top, below, e, more) found =
      let (below', e') = top_known stack' t found in
      let same : top ≡ fd = cc in (below', e', subst (λ x. is_positive x ≡ true) same more)

  others-Knows :
      (p : Pc)
      → c.locals i ≡ p
      → in_table p ≡ true
      → (after : List ℤ) (j : ℕ) → i ≢ j
      → Knows after (c.locals j)
  others-Knows p here e after j ne =
      Knows-out after (c.locals j) (others_out inv i low high (ap in_table here ∙ e) j ne)

  kept-Knows :
      (p : Pc) → pool_after p stack ≡ stack → (j : ℕ) → Knows (pool_after p stack) (c.locals j)
  kept-Knows p e j = subst (λ l. Knows l (c.locals j)) (sym e) (knows j)

  pub Move-Knows :
      {p p' : Pc} {s : Shared}
      → Move io i c.shared p s p'
      → c.locals i ≡ p
      → (j : ℕ) → Knows (pool_after p stack) (update c.locals i p' j)
  Move-Knows {p} {p'} (walk q k) here =
      let quiet = (Walks-Quiet q).0 in
      update-others (Knows (pool_after p stack)) c.locals i p' (quiet.know (pool_after p stack))
        (λ j ne. kept-Knows p (quiet.pool stack) j)
  Move-Knows {p} {p'} (ask a none_in) here =
      let quiet = (Asks-Quiet a).0 in
      update-others (Knows (pool_after p stack)) c.locals i p' (quiet.know (pool_after p stack))
        (λ j ne. kept-Knows p (quiet.pool stack) j)
  Move-Knows {p} {p'} (leave l) here =
      let quiet = (Leaves-Quiet l).0 in
      update-others (Knows (pool_after p stack)) c.locals i p' (quiet.know (pool_after p stack))
        (λ j ne. kept-Knows p (quiet.pool stack) j)
  Move-Knows (hit {fd} e more) here =
      let (below, known) = top_known stack (only_lift inv i low high looking here refl) e in
      update-others (Knows stack) c.locals i fetching (fd, below, known, more) (λ j ne. knows j)
  Move-Knows (get {fd} e) here =
      update-others (Knows stack) c.locals i (clearing fd)
        (got stack (only_lift inv i low high fetching here refl)
          (subst (Knows stack) here (knows i)) e)
        (λ j ne. knows j)
  Move-Knows (clear {fd} e) here =
      let after = pool_after (clearing fd) stack in
      update-others (Knows after) c.locals i (lowering fd) tt
        (others-Knows (clearing fd) here refl after)
  Move-Knows (place {fd} e) here =
      update-others (Knows (fd ∷ stack)) c.locals i placed tt
        (others-Knows (placing fd) here refl (fd ∷ stack))
  Move-Knows (unlock_file {fd} {n}) here =
      update-others (Knows stack) c.locals i _ (knows_more (has_more n)) (λ j ne. knows j)
    where
      knows_more : (b : Bool) → Knows stack (if b then receiving fd else closing fd)
      knows_more true = tt
      knows_more false = tt
  Move-Knows (lower {fd}) here =
      update-others (Knows stack) c.locals i (taking fd) tt (λ j ne. knows j)
  Move-Knows (raise {fd}) here =
      update-others (Knows stack) c.locals i (placing fd) tt (λ j ne. knows j)
  Move-Knows (queue {fd} {n} e) here =
      update-others (Knows stack) c.locals i (storing fd n) tt (λ j ne. knows j)
  Move-Knows (write {fd} {bytes}) here =
      update-others (Knows stack) c.locals i (freeing fd (chunk bytes)) tt (λ j ne. knows j)
  Move-Knows close here = update-others (Knows stack) c.locals i asking tt (λ j ne. knows j)
  Move-Knows (connect {fd} e) here =
      update-others (Knows stack) c.locals i (offering (pos fd)) tt (λ j ne. knows j)
