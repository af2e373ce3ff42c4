-- ===== src/EpollServer/Events.antt =====
-- What the loop of racey-tcp-server-epoll.c does with its events.
use racey_suite.Prelude.{
  ℕ, zero, suc, ◌+◌, ◌<◌, ◌≡◌, refl, ℤ, true, false, List, [], ◌∷◌, ◌++◌, length, arith, ◌∙◌, ap,
  sym,
}
use racey_suite.Outcome.{returned}
use racey_suite.ForkMmap.{int_eq}
use racey_suite.TcpServer.{Received, chunk, failed, has_more}
use racey_suite.EpollServer.{Event, EpollCalls, State, write_out, drain, handle}

-- From call k on, `read` gives the pieces, none of them empty, and then `final`.
abbrev pub Gives : EpollCalls → ℕ → List (List ℕ) → Received → Type 0
Gives io k [] final = io.read k ≡ final
Gives io k (bytes ∷ pieces) final =
    (io.read k ≡ chunk bytes) × (has_more (chunk bytes) ≡ true) × Gives io (suc k) pieces final

abbrev pub concat : List (List ℕ) → List ℕ
concat [] = []
concat (bytes ∷ pieces) = bytes ++ concat pieces

pub ++-assoc : (a b c : List ℕ) → (a ++ b) ++ c ≡ a ++ (b ++ c)
++-assoc [] b c = refl
++-assoc (x ∷ a) b c = ap (λ l. x ∷ l) (++-assoc a b c)

pub ++-nil : (a : List ℕ) → a ++ [] ≡ a
++-nil [] = refl
++-nil (x ∷ a) = ap (λ l. x ∷ l) (++-nil a)

-- What a write leaves.
abbrev written : State → Received → State
written s (chunk bytes) = record s { output = s.output ++ bytes }
written s failed = s

-- What is left when the pieces are read and written, and then `final` is read.
abbrev pub copied : Received → State → List (List ℕ) → State
copied final s [] = written (record s { reads = suc s.reads }) final
copied final s (bytes ∷ pieces) =
    copied final (record s { reads = suc s.reads; output = s.output ++ bytes }) pieces

module _ (final : Received) (last : has_more final ≡ false) where
  written-same : (s : State) → written s final ≡ s
  written-same s = stopped final last
    where
      stopped : (n : Received) → has_more n ≡ false → written s n ≡ s
      stopped (chunk []) h = ap (λ o. record s { output = o }) (++-nil s.output)
      stopped (chunk (b ∷ bytes)) h = cc
      stopped failed h = refl

  pub copied-output :
      (s : State) (pieces : List (List ℕ))
      → (copied final s pieces).output ≡ s.output ++ concat pieces
  copied-output s [] =
      ap (λ t. t.output) (written-same (record s { reads = suc s.reads })) ∙ sym (++-nil s.output)
  copied-output s (bytes ∷ pieces) =
      copied-output (record s { reads = suc s.reads; output = s.output ++ bytes }) pieces
      ∙ ++-assoc s.output bytes (concat pieces)

  pub copied-reads :
      (s : State) (pieces : List (List ℕ))
      → (copied final s pieces).reads ≡ length pieces + suc s.reads
  copied-reads s [] =
      ap (λ t. t.reads) (written-same (record s { reads = suc s.reads })) ∙ omega arith
  copied-reads s (bytes ∷ pieces) =
      omega
        (arith, copied-reads (record s { reads = suc s.reads; output = s.output ++ bytes }) pieces)

  copied-lists :
      (s : State) (pieces : List (List ℕ))
      → ((copied final s pieces).removed ≡ s.removed) × ((copied final s pieces).closed ≡ s.closed)
  copied-lists s [] =
      let same = written-same (record s { reads = suc s.reads }) in
      (ap (λ t. t.removed) same, ap (λ t. t.closed) same)
  copied-lists s (bytes ∷ pieces) =
      copied-lists (record s { reads = suc s.reads; output = s.output ++ bytes }) pieces

  write_out_lem : (s : State) → write_out s final ≡ returned (written s final)
  write_out_lem s = wrote final
    where
      wrote : (n : Received) → write_out s n ≡ returned (written s n)
      wrote (chunk bytes) = refl
      wrote failed = refl

  drain_lem :
      (io : EpollCalls) (s : State) (pieces : List (List ℕ)) (fuel : ℕ)
      → Gives io s.reads pieces final
      → length pieces < fuel
      → drain io fuel s ≡ returned (copied final s pieces)
  unfolding drain
  drain_lem io s pieces zero g h = absurd (omega arith)
  drain_lem io s [] (suc fuel) g h =
      rw (g, write_out_lem (record s { reads = suc s.reads }), last) refl
  drain_lem io s (bytes ∷ pieces) (suc fuel) (here, more, later) h =
      rw (here, more)
        (drain_lem io (record s { reads = suc s.reads; output = s.output ++ bytes }) pieces fuel
          later (omega arith))

module _ (io : EpollCalls) (fuel : ℕ) (server_fd : ℤ) (s : State) (event : Event)
    (readable : event.wrong ≡ false) (connection : int_eq event.fd server_fd ≡ false)
    (pieces : List (List ℕ)) (enough : length pieces < fuel) (final : Received)
    (last : has_more final ≡ false) where
  abbrev pub served : State
  served = let done = copied final s pieces in record done { removed = event.fd ∷ done.removed }

  pub handle-served :
      Gives io s.reads pieces final → handle io fuel server_fd s event ≡ returned served
  unfolding handle
  handle-served g = rw (readable, connection, drain_lem final last io s pieces fuel g enough) refl

  -- For an event on a connection that can be read, if `read` gives pieces, none of them empty, and
  -- then the end of the stream or -1, and the fuel is more than their number, the server appends
  -- just these bytes to the file, in order, and removes the connection from the set, but does not
  -- close it.
  pub epoll_handle_copies :
      Gives io s.reads pieces final
      → (after : State) × (handle io fuel server_fd s event ≡ returned after)
        × (after.output ≡ s.output ++ concat pieces)
        × (after.removed ≡ event.fd ∷ s.removed)
        × (after.closed ≡ s.closed)
  epoll_handle_copies g =
      let (removed, closed) = copied-lists final last s pieces in
      (
        served,
        handle-served g,
        copied-output final last s pieces,
        ap (λ l. event.fd ∷ l) removed,
        closed,
      )
