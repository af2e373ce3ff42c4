-- ===== src/Tests/Epoll.antt =====
-- The epoll server at an event on connection 7.
use racey_suite.Prelude.{ℕ, ◌≡◌, refl, pos, false, List, [], ◌∷◌, ◌++◌, arith, ltb, if◌then◌else◌}
use racey_suite.Outcome.{returned}
use racey_suite.TcpServer.{Received, chunk, failed}
use racey_suite.EpollServer.{EpollCalls, Event, State, start, handle}
use racey_suite.EpollServer.Events.{concat, epoll_handle_copies}

-- Two pieces, and then what is given: -1, since nothing more has come in yet.
abbrev epoll_with : Received → EpollCalls
epoll_with final = record {
  descriptor = pos 3;
  socket = pos 4;
  bind = pos 0;
  listen = pos 0;
  epoll_create = pos 5;
  get_flags = λ fd. pos 2;
  set_flags = λ fd flags. pos 0;
  epoll_add = λ fd. pos 0;
  accept = λ k. pos 7;
  read = λ k. if ltb k 2 then chunk (k ∷ []) else final;
  wait = λ k. [];
  o_nonblock = 2048;
}

abbrev readable_event : Event
readable_event = record { fd = pos 7; wrong = false }

abbrev two_pieces : List (List ℕ)
two_pieces = (0 ∷ []) ∷ (1 ∷ []) ∷ []

epoll_handle_copies_example :
    (after : State) × (handle (epoll_with failed) 3 (pos 4) start readable_event ≡ returned after)
    × (after.output ≡ start.output ++ concat two_pieces)
    × (after.removed ≡ pos 7 ∷ start.removed)
    × (after.closed ≡ start.closed)
epoll_handle_copies_example =
    epoll_handle_copies (epoll_with failed) 3 (pos 4) start readable_event refl refl two_pieces
      (omega arith) failed refl (refl, refl, (refl, refl, refl))
