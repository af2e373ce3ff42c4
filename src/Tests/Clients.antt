-- ===== src/Tests/Clients.antt =====
-- A worker of the client whose third socket fails, alone and with the epoll server.
use racey_suite.Prelude.{
  ℕ, ◌<◌, ◌≡◌, refl, ℤ, pos, negsuc, List, [], ◌∷◌, ◌++◌, String, arith, ltb, ◌==◌, if◌then◌else◌,
  map, ◌⊎◌, false, Bool-cases, inl, inr, suc,
}
use racey_suite.Outcome.{returned, crashed}
use racey_suite.TcpServer.{Received, chunk}
use racey_suite.EpollServer.{Event, EpollCalls, State, start, handle_all}
use racey_suite.TcpClient.{lines, quote, ClientCalls, Log, racey_worker, worker_num, main, codes}
use racey_suite.TcpClient.Worker.{Speaks, terminated, nothing, racey_worker-Speaks}
use racey_suite.TcpClient.Main.{client_main_cases}
use racey_suite.Session.{messages, epoll_session_roundtrip}

abbrev client : ClientCalls
client = record { socket = λ n. if ltb n 2 then pos 3 else negsuc 0; connect = λ n. pos 0 }

racey_worker-Speaks_example : Speaks client lines (racey_worker client quote 18 0 nothing)
racey_worker-Speaks_example = racey_worker-Speaks client 18 (omega arith)

-- The fourth creation fails with EAGAIN.
abbrev creations : ℕ → ℤ
creations k = if k == 3 then pos 11 else pos 0

creations-errors : (k : ℕ) → (r : ℕ) × (creations k ≡ pos r)
creations-errors k = elim (Bool-cases (k == 3)) [
  | inl is ↦ (11, rw is refl)
  | inr is ↦ (0, rw is refl)
]

abbrev client_args : List String
client_args = "client" ∷ "127.0.0.1" ∷ "5000" ∷ []

client_main_cases_example :
    (((k : ℕ) → k < worker_num → creations k ≡ pos 0) × (main creations client_args ≡ returned tt))
    ⊎ ((k : ℕ) × (e : ℕ) × (k < worker_num)
        × (creations k ≡ pos (suc e))
        × (main creations client_args ≡ crashed))
client_main_cases_example =
    client_main_cases creations client_args (omega arith) (omega arith) creations-errors

abbrev first_line : List ℕ
first_line = codes "I love you, Pumpkin.\n"

abbrev second_line : List ℕ
second_line = codes "I love you, Honey Bunny.\n"

abbrev client_log : Log
client_log = record {
  sent = terminated first_line ∷ terminated second_line ∷ [];
  opened = pos 3 ∷ pos 3 ∷ [];
  closed = pos 3 ∷ pos 3 ∷ [];
}

client-returns : racey_worker client quote 18 0 nothing ≡ returned client_log
unfolding racey_worker quote
client-returns = refl

-- Each line arrives in one piece.
abbrev line_reads : ℕ → Received
line_reads k =
    if k == 0
    then chunk (terminated first_line)
    else if k == 2
    then chunk (terminated second_line)
    else chunk []

abbrev film_server : EpollCalls
film_server = record {
  descriptor = pos 3;
  socket = pos 4;
  bind = pos 0;
  listen = pos 0;
  epoll_create = pos 5;
  get_flags = λ fd. pos 2;
  set_flags = λ fd flags. pos 0;
  epoll_add = λ fd. pos 0;
  accept = λ k. pos 7;
  read = line_reads;
  wait = λ k. [];
  o_nonblock = 2048;
}

abbrev film_events : List Event
film_events = record { fd = pos 7; wrong = false } ∷ record { fd = pos 8; wrong = false } ∷ []

epoll_session_roundtrip_example :
    (said : List (List ℕ)) × (rest : List (List ℕ)) × (after : State) × (said ++ rest ≡ lines)
    × (client_log.sent ≡ map terminated said)
    × (handle_all film_server 2 (pos 4) start film_events ≡ returned after)
    × (messages after.output ≡ said)
epoll_session_roundtrip_example =
    epoll_session_roundtrip client 18 client_log (omega arith) client-returns film_server 2 (pos 4)
      film_events
      (
        refl,
        refl,
        terminated first_line ∷ [],
        omega arith,
        refl,
        (refl, refl, refl),
        (refl, refl, terminated second_line ∷ [], omega arith, refl, (refl, refl, refl), tt),
      )
