-- ===== src/Session.antt =====
-- racey-tcp/racey-tcp-client.c and racey-tcp/racey-tcp-server-epoll.c together: what the lines of a
-- worker become in the file of the server, and how they are read back from it.
use mathlib.Core.Path.{subst}
use racey_suite.Prelude.{
  ℕ, suc, ◌+◌, ◌<◌, ◌≡◌, refl, ℤ, Bool, true, false, List, [], ◌∷◌, ◌++◌, length, map, ◌∙◌, sym, ap,
  ◌==◌, if◌then◌else◌, Bool-cases, inl, inr,
}
use racey_suite.Outcome.{returned}
use racey_suite.ForkMmap.{int_eq}
use racey_suite.TcpServer.{chunk}
use racey_suite.EpollServer.{Event, EpollCalls, State, start, handle_all}
use racey_suite.EpollServer.Events.{
  Gives, concat, served, handle-served, copied-reads, copied-output, ++-assoc, ++-nil,
}
use racey_suite.TcpClient.{lines, quote, ClientCalls, Log, racey_worker}
use racey_suite.TcpClient.Worker.{terminated, nothing, racey_worker-Speaks, racey_worker-sent}

-- The messages of a file: its bytes, cut at the zeros.
abbrev pub put_first : ℕ → List (List ℕ) → List (List ℕ)
put_first b [] = (b ∷ []) ∷ []
put_first b (message ∷ rest) = (b ∷ message) ∷ rest

abbrev pub messages : List ℕ → List (List ℕ)
messages [] = []
messages (b ∷ bytes) = let rest = messages bytes in if b == 0 then [] ∷ rest else put_first b rest

-- No byte is zero.
abbrev no_zero : List ℕ → Bool
no_zero [] = true
no_zero (b ∷ bytes) = let rest = no_zero bytes in if b == 0 then false else rest

abbrev pub no_zeros : List (List ℕ) → Bool
no_zeros [] = true
no_zeros (line ∷ ls) = if no_zero line then no_zeros ls else false

messages-terminated :
    (line bytes : List ℕ)
    → no_zero line ≡ true
    → messages (terminated line ++ bytes) ≡ line ∷ messages bytes
messages-terminated [] bytes clean = refl
messages-terminated (b ∷ line) bytes clean = elim (Bool-cases (b == 0)) [
  | inl is ↦ let no : false ≡ true = rw is at clean in cc
  | inr is ↦ rw (is, messages-terminated line bytes (rw is at clean)) refl
]

messages-concat :
    (ls : List (List ℕ)) → no_zeros ls ≡ true → messages (concat (map terminated ls)) ≡ ls
messages-concat [] clean = refl
messages-concat (line ∷ ls) clean = elim (Bool-cases (no_zero line)) [
  | inl is ↦
      messages-terminated line (concat (map terminated ls)) is
      ∙ ap (λ l. line ∷ l) (messages-concat ls (rw is at clean))
  | inr is ↦ let no : false ≡ true = rw is at clean in cc
]

no_zeros-prefix :
    (said rest : List (List ℕ)) → no_zeros (said ++ rest) ≡ true → no_zeros said ≡ true
no_zeros-prefix [] rest clean = refl
no_zeros-prefix (line ∷ said) rest clean = elim (Bool-cases (no_zero line)) [
  | inl is ↦ rw is (no_zeros-prefix said rest (rw is at clean))
  | inr is ↦ let no : false ≡ true = rw is at clean in cc
]

lines-no_zeros : no_zeros lines ≡ true
lines-no_zeros = refl

-- From call k of `read` on, the events are on connections that can be read, and each gives the bytes
-- of one connection, in pieces that are not empty, and then the end of the stream.
module _ (io : EpollCalls) (fuel : ℕ) (server_fd : ℤ) where
  abbrev pub Delivers : ℕ → List Event → List (List ℕ) → Type 0
  Delivers k [] [] = Unit
  Delivers k (event ∷ events) (bytes ∷ sent) =
      (event.wrong ≡ false)
      × (int_eq event.fd server_fd ≡ false)
      × (pieces : List (List ℕ)) × (length pieces < fuel)
      × (concat pieces ≡ bytes)
      × Gives io k pieces (chunk [])
      × Delivers (length pieces + suc k) events sent
  Delivers k _ _ = ⊥

  handle_all_copies :
      (s : State) (events : List Event) (sent : List (List ℕ))
      → Delivers s.reads events sent
      → (after : State) × (handle_all io fuel server_fd s events ≡ returned after)
        × (after.output ≡ s.output ++ concat sent)
  unfolding handle_all
  handle_all_copies s [] [] d = (s, refl, sym (++-nil s.output))
  handle_all_copies s [] (bytes ∷ sent) d = absurd d
  handle_all_copies s (event ∷ events) [] d = absurd d
  handle_all_copies s (event ∷ events) (bytes ∷ sent)
        (good, ready, pieces, enough, whole, gives, later) =
      let after = served io fuel server_fd s event good ready pieces enough (chunk []) refl in
      let next =
        subst (λ k. Delivers k events sent) (sym (copied-reads (chunk []) refl s pieces)) later in
      let (last, rest, output) = handle_all_copies after events sent next in
      let this =
        handle-served io fuel server_fd s event good ready pieces enough (chunk []) refl gives in
      let sum : (s.output ++ concat pieces) ++ concat sent ≡ s.output ++ (bytes ++ concat sent) =
        ++-assoc s.output (concat pieces) (concat sent)
        ∙ ap (λ b. s.output ++ (b ++ concat sent)) whole in
      (
        last,
        rw this rest,
        output ∙ ap (λ b. b ++ concat sent) (copied-output (chunk []) refl s pieces) ∙ sum,
      )

-- A worker that ends, with fuel above 17, has sent the first so many of the lines of the film. If
-- the server, with an empty file, gets one event for each of the worker's connections, in their
-- order, on each of which `read` gives just the bytes that were sent, in pieces that are not empty
-- and fewer than the fuel, and then the end of the stream, the loop over these events ends, and the
-- messages of the file, which is cut at the zeros, are these lines again.
pub epoll_session_roundtrip :
    (client : ClientCalls) (client_fuel : ℕ) (log : Log)
    → 17 < client_fuel
    → racey_worker client quote client_fuel 0 nothing ≡ returned log
    → (io : EpollCalls) (fuel : ℕ) (server_fd : ℤ) (events : List Event)
    → Delivers io fuel server_fd 0 events log.sent
    → (said : List (List ℕ)) × (rest : List (List ℕ)) × (after : State) × (said ++ rest ≡ lines)
      × (log.sent ≡ map terminated said)
      × (handle_all io fuel server_fd start events ≡ returned after)
      × (messages after.output ≡ said)
epoll_session_roundtrip client client_fuel log enough ends io fuel server_fd events delivers =
    let speaks = racey_worker-Speaks client client_fuel enough in
    let (said, rest, whole, wrote) =
      racey_worker-sent client lines (racey_worker client quote client_fuel 0 nothing) log speaks
        ends in
    let (after, run, output) = handle_all_copies io fuel server_fd start events log.sent delivers in
    let clean = no_zeros-prefix said rest (rw whole lines-no_zeros) in
    (
      said,
      rest,
      after,
      whole,
      wrote,
      run,
      ap messages (output ∙ ap concat wrote) ∙ messages-concat said clean,
    )
