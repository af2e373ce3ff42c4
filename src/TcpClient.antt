-- ===== src/TcpClient.antt =====
-- racey-tcp/racey-tcp-client.c: threads each of which sends the lines of a film to the server, each
-- line over a connection of its own. The threads share nothing that they change, so a worker is a
-- function of the results of its own calls. The address and the port go to the calls alone.
pub mod Main
pub mod Worker
use racey_suite.Prelude.{
  ℕ, zero, suc, ◌+◌, ℤ, pos, negsuc, Bool, true, false, ◌||◌, List, [], ◌∷◌, ◌++◌, String, length,
  get_elem?, get_or, replicate, map, ltb, ◌==◌, if◌then◌else◌,
}
use racey_suite.Outcome.{Outcome, returned, exited, crashed, unfinished, ◌>>=◌, ◌>>◌, access}
use Prim.Native.Char.{code}

-- The bytes of a text, which is ASCII.
abbrev pub codes : String → List ℕ
codes String.[] = []
codes (String.◌∷◌ c s) = code c ∷ codes s

abbrev pub lines : List (List ℕ)
lines = map codes (
    "I love you, Pumpkin.\n" ∷ "I love you, Honey Bunny.\n"
    ∷ "All right, everybody be cool, this is a robbery!\n"
    ∷ "Any of you fucking pricks move, and I'll execute every motherfucking last one of ya!\n"
    ∷ "Whose motorcycle is this?\n" ∷ "It's a chopper, baby.\n" ∷ "Whose chopper is this?\n"
    ∷ "It's Zed's\n" ∷ "Who's Zed?\n" ∷ "Zed's dead, baby. Zed's dead.\n"
    ∷ "You now what they call a Quarter Pounder with Cheese in France?\n" ∷ "No.\n"
    ∷ "Tell 'em, Vincent.\n" ∷ "A Royale with Cheese.\n"
    ∷ "A Royale with cheese! You now why they call it that?\n"
    ∷ "....Because...of the metric system?\n"
    ∷ "Check out the big brain on Brett! You're a smart motherfucker. That's right, the metric system!\n"
    ∷ [])

-- `quote`, each entry up to its first zero.
unfoldable pub quote : List (List ℕ)
quote = lines ++ replicate 47 []

-- The results of the calls of one worker in its n-th round.
pub record ClientCalls : Type 0 where
  pub socket : ℕ → ℤ
  pub connect : ℕ → ℤ

-- What a worker has written to its connections, in order, and the descriptors that it has opened and
-- closed, the latest first.
pub record Log : Type 0 where
  pub sent : List (List ℕ)
  pub opened : List ℤ
  pub closed : List ℤ

-- `write(fd, quote[n], strlen(quote[n]) + 1)` and `close(fd)`.
abbrev pub send : Log → ℤ → List ℕ → Log
send log fd line = record {
  sent = log.sent ++ (line ++ 0 ∷ []) ∷ [];
  opened = fd ∷ log.opened;
  closed = fd ∷ log.closed;
}

-- What follows a call of `socket` and one of `connect`.
abbrev pub after_connect : Log → ℤ → ℤ → Outcome Log → Outcome Log
after_connect log fd (negsuc e) next = returned (record log { opened = fd ∷ log.opened })
after_connect log fd (pos r) next = next

abbrev pub after_socket : Log → ℤ → Outcome Log → Outcome Log
after_socket log (negsuc e) next = returned log
after_socket log (pos fd) next = next

-- `racey_worker` from round n on, with fuel.
unfoldable pub racey_worker : ClientCalls → List (List ℕ) → ℕ → ℕ → Log → Outcome Log
racey_worker io table zero n log = unfinished
racey_worker io table (suc fuel) n log = access (get_elem? table n) >>= λ line.
    let rest = racey_worker io table fuel (n + 1) (send log (io.socket n) line) in
    let round =
      after_socket log (io.socket n) (after_connect log (io.socket n) (io.connect n) rest) in
    if get_or line 0 0 == 0 then returned log else round

abbrev pub worker_num : ℕ
worker_num = 110

abbrev pub check_argc : ℕ → Outcome (Unit {0})
check_argc argc = if ltb argc 3 || ltb 4 argc then exited 1 else returned tt

-- The test `pthread_create(...) < 0`.
abbrev pub unless_negative : ℤ → Outcome (Unit {0})
unless_negative (negsuc e) = exited 1
unless_negative (pos r) = returned tt

-- The loop that creates the threads, with `left` to go.
unfoldable pub create_workers : (ℕ → ℤ) → ℕ → ℕ → Outcome (Unit {0})
create_workers create i zero = returned tt
create_workers create i (suc left) =
    unless_negative (create i) >> create_workers create (i + 1) left

-- `pthread_join` of `threads[i]`, which holds a thread only if its creation returned 0.
abbrev pub join : ℤ → Outcome (Unit {0})
join (pos zero) = returned tt
join _ = crashed

unfoldable pub join_workers : (ℕ → ℤ) → ℕ → ℕ → Outcome (Unit {0})
join_workers create i zero = returned tt
join_workers create i (suc left) = join (create i) >> join_workers create (i + 1) left

-- `main`, where every worker comes to its end.
unfoldable pub main : (ℕ → ℤ) → List String → Outcome (Unit {0})
unfolding create_workers join_workers
main create argv = do
  check_argc (length argv)
  create_workers create 0 worker_num
  join_workers create 0 worker_num
