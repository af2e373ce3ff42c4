-- ===== src/TcpClient/Worker.antt =====
-- What a worker of racey-tcp-client.c sends, and what `main` comes to.
use mathlib.Core.Path.{subst}
use native.Mathlib.Nat.{zero-add}
use mathlib.Core.List.{map-append, append_assoc, append-nil}
use racey_suite.Prelude.{
  ℕ, ℕ_discrete, zero, suc, ◌+◌, ◌<◌, ◌≡◌, refl, ℤ, pos, negsuc, false, List, [], ◌∷◌, ◌++◌, length,
  get_elem?, get_or, some, map, replicate, All, arith, ◌==◌, ◌∙◌, sym, ap,
}
use racey_suite.Outcome.{Outcome, returned}
use racey_suite.TcpClient.{
  lines, quote, ClientCalls, Log, send, after_connect, after_socket, racey_worker,
}

-- An entry of the table at which the worker does not stop.
abbrev pub IsLine : List ℕ → Type 0
IsLine line = (get_or line 0 0 == 0) ≡ false

-- The bytes of a line as the worker writes them.
abbrev pub terminated : List ℕ → List ℕ
terminated line = line ++ 0 ∷ []

-- The calls of round k succeed.
abbrev pub Connected : ClientCalls → ℕ → Type 0
Connected io k = (fd : ℕ) × (result : ℕ) × (io.socket k ≡ pos fd) × (io.connect k ≡ pos result)

-- Just these lines were sent, each over a connection that was closed.
pub record HasSent (io : ClientCalls) (said : List (List ℕ)) (log : Log) : Type 0 where
  pub connected : (k : ℕ) → k < length said → Connected io k
  pub wrote : log.sent ≡ map terminated said
  pub closes : log.opened ≡ log.closed

-- What a worker comes to: it sends all lines, or those up to the first call that fails. When it is
-- `connect` that fails, the descriptor stays open.
pub data Speaks (io : ClientCalls) (all : List (List ℕ)) (o : Outcome Log) : Type 0 where
  done : (log : Log) → o ≡ returned log → HasSent io all log → Speaks io all o
  no_socket :
      (said rest : List (List ℕ)) (e : ℕ) (log : Log)
      → said ++ rest ≡ all
      → io.socket (length said) ≡ negsuc e
      → o ≡ returned log
      → HasSent io said log
      → Speaks io all o
  no_connection :
      (said rest : List (List ℕ)) (fd e : ℕ) (log : Log)
      → said ++ rest ≡ all
      → io.socket (length said) ≡ pos fd
      → io.connect (length said) ≡ negsuc e
      → o ≡ returned (record log { opened = pos fd ∷ log.opened })
      → HasSent io said log
      → Speaks io all o

abbrev pub nothing : Log
nothing = record { sent = []; opened = []; closed = [] }

sent_log : {a b : Log} → returned a ≡ returned b → a ≡ b
sent_log h = cc

length-snoc : (xs : List (List ℕ)) (x : List ℕ) → length (xs ++ x ∷ []) ≡ length xs + 1
length-snoc [] x = refl
length-snoc (y ∷ xs) x = omega (arith, length-snoc xs x)

send-HasSent :
    (io : ClientCalls) (said : List (List ℕ)) (log : Log) (fd : ℤ) (line : List ℕ)
    → Connected io (length said)
    → HasSent io said log
    → HasSent io (said ++ line ∷ []) (send log fd line)
send-HasSent io said log fd line now h = record {
  connected = λ k small. elim (ℕ_discrete (length said) k) [
    | yes same ↦ subst (Connected io) same now
    | no other ↦ h.connected k (omega (arith, length-snoc said line))
  ];
  wrote =
      ap (λ l. l ++ terminated line ∷ []) h.wrote ∙ sym (map-append terminated said (line ∷ []));
  closes = ap (λ l. fd ∷ l) h.closes;
}

module _ (io : ClientCalls) (table all tail : List (List ℕ)) where
  -- From the `n`-th entry on the table holds `ls` and an empty entry.
  abbrev Holds : ℕ → List (List ℕ) → Type 0
  Holds n ls = (j : ℕ) → get_elem? table (n + j) ≡ get_elem? (ls ++ [] ∷ tail) j

  found :
      (n : ℕ) (line : List ℕ) (ls : List (List ℕ))
      → Holds n (line ∷ ls)
      → get_elem? table n ≡ some line
  found n line ls h = let here : n + 0 ≡ n = omega arith in rw here at (h 0)

  stop_at : (n : ℕ) → Holds n [] → get_elem? table n ≡ some []
  stop_at n h = let here : n + 0 ≡ n = omega arith in rw here at (h 0)

  later :
      (said : List (List ℕ)) (line : List ℕ) (ls : List (List ℕ))
      → Holds (length said) (line ∷ ls)
      → Holds (length (said ++ line ∷ [])) ls
  later said line ls h j =
      let next : length (said ++ line ∷ []) + j ≡ length said + suc j =
        omega (arith, length-snoc said line) in
      rw next (h (suc j))

  worker_from :
      (fuel : ℕ) (said ls : List (List ℕ)) (log : Log)
      → said ++ ls ≡ all
      → Holds (length said) ls
      → All IsLine ls
      → length ls < fuel
      → HasSent io said log
      → Speaks io all (racey_worker io table fuel (length said) log)
  unfolding racey_worker
  worker_from zero said ls log e h are h' sent = absurd (omega arith)
  worker_from (suc fuel) said [] log e h are h' sent =
      let whole : said ≡ all = sym (append-nil said) ∙ e in
      rw (stop_at (length said) h) (done log refl (subst (λ l. HasSent io l log) whole sent))
  worker_from (suc fuel) said (line ∷ ls) log e h (is, are) h' sent =
      rw (found (length said) line ls h, is)
        (round (io.socket (length said)) (io.connect (length said)) refl refl (λ now.
          rw (length-snoc said line) at (
            worker_from fuel (said ++ line ∷ []) ls (send log (io.socket (length said)) line)
              (append_assoc said (line ∷ []) ls ∙ e) (later said line ls h) are (omega arith)
              (send-HasSent io said log (io.socket (length said)) line now sent))))
    where
      round :
          (f c : ℤ)
          → io.socket (length said) ≡ f
          → io.connect (length said) ≡ c
          → (Connected io (length said)
              → Speaks io all (
                  racey_worker io table fuel
                    (length said + 1)
                    (send log (io.socket (length said)) line)))
          → Speaks io all (
              after_socket log (io.socket (length said)) (
                after_connect log (io.socket (length said)) (io.connect (length said)) (
                  racey_worker io table fuel
                    (length said + 1)
                    (send log (io.socket (length said)) line))))
      round (negsuc k) c ef ec rest = rw ef (no_socket said (line ∷ ls) k log e ef refl sent)
      round (pos fd) (negsuc k) ef ec rest =
          rw (ef, ec) (no_connection said (line ∷ ls) fd k log e ef ec refl sent)
      round (pos fd) (pos r) ef ec rest = rw (ef, ec) (rw ef at (rest (fd, r, ef, ec)))

lines-All : All IsLine lines
lines-All = (
  refl,
  (
    refl,
    (
      refl,
      (
        refl,
        (
          refl,
          (
            refl,
            (
              refl,
              (refl, (refl, (refl, (refl, (refl, (refl, (refl, (refl, (refl, (refl, tt)))))))))),
            ),
          ),
        ),
      ),
    ),
  ),
)

quote-Holds : (io : ClientCalls) → Holds io quote lines (replicate 46 []) 0 lines
unfolding quote
quote-Holds io j = ap (λ k. get_elem? (lines ++ replicate 47 []) k) (zero-add j)

-- With fuel above 17, a worker comes to its end: it sends the lines in order, each with its final
-- zero and over a connection of its own, up to the first call of `socket` or `connect` that fails,
-- or all of them; it closes what it opens, but for the descriptor with which `connect` fails.
pub racey_worker-Speaks :
    (io : ClientCalls) (fuel : ℕ)
    → 17 < fuel
    → Speaks io lines (racey_worker io quote fuel 0 nothing)
racey_worker-Speaks io fuel enough =
    worker_from io quote lines (replicate 46 []) fuel [] lines nothing refl (quote-Holds io)
      lines-All enough
      (record { connected = λ k small. absurd (omega arith); wrote = refl; closes = refl })

-- What a worker that returns has sent: the first so many of the lines.
pub racey_worker-sent :
    (io : ClientCalls) (all : List (List ℕ)) (o : Outcome Log) (log : Log)
    → Speaks io all o
    → o ≡ returned log
    → (said rest : List (List ℕ)) × (said ++ rest ≡ all) × (log.sent ≡ map terminated said)
racey_worker-sent io all o log (done log' e h) r =
    (all, [], append-nil all, ap (λ l. l.sent) (sent_log (sym r ∙ e)) ∙ h.wrote)
racey_worker-sent io all o log (no_socket said rest e log' whole _ is h) r =
    (said, rest, whole, ap (λ l. l.sent) (sent_log (sym r ∙ is)) ∙ h.wrote)
racey_worker-sent io all o log (no_connection said rest fd e log' whole _ _ is h) r =
    (said, rest, whole, ap (λ l. l.sent) (sent_log (sym r ∙ is)) ∙ h.wrote)
