-- ===== src/Tests/Sockets.antt =====
-- The server on two connections: states that its threads reach.
use racey_suite.Prelude.{
  ℕ, suc, ◌-◌, length, replicate, ◌+◌, ◌≡◌, refl, ℤ, pos, negsuc, true, none, List, [], ◌∷◌, arith,
  ℕ_discrete, total, if◌then◌else◌, ltb,
}
use racey_suite.Machine.{System, Reach, start, run, fault}
use racey_suite.Machine.Laws.{run-Reach}
use racey_suite.TcpServer.{SocketCalls, Shared, Pc, chunk, tcp_step, boot, worker_num}
use racey_suite.TcpServer.Table.{Table, pile, index_of}
use racey_suite.TcpServer.Pool.{Replays, history, tcp_server_refines_stack}
use racey_suite.TcpServer.Held.{in_table, in_file, lifted, carried, sum, accepted}
use racey_suite.TcpServer.Server.{
  FaultCase, tcp_server_keeps_connections, tcp_server_fault_cases, tcp_server_exclusion,
}
use racey_suite.Tests.{turns, reached}

-- Two connections, 5 and 6, with one byte each.
abbrev sockets : SocketCalls
sockets = record {
  descriptor = pos 3;
  socket = pos 4;
  bind = pos 0;
  create = λ i. pos 0;
  listen = pos 0;
  accept = λ k. if ltb k 2 then pos (5 + k) else negsuc 0;
  read = λ k. if ltb k 1 then chunk (65 ∷ []) else chunk [];
}

-- `main` puts 5 and 6 into the table, worker 1 takes 6 and reads, and worker 2 is about to clear
-- the entry of 5.
abbrev server_turns : List ℕ
server_turns = turns 14 11 (turns 8 1 (turns 4 2 []))

abbrev served : System Shared Pc
served = reached (run (tcp_step sockets) 11 server_turns boot) boot

served-Reach : Reach (tcp_step sockets) 11 boot served
unfolding run tcp_step ℕ_discrete
served-Reach = run-Reach (tcp_step sockets) 11 server_turns boot served start refl

tcp_server_refines_stack_example :
    (stack : List ℤ) × Replays (history sockets served-Reach) stack
    × (served.shared.table_owner ≡ none
        → (served.shared.client_fds ≡ pile stack (replicate (worker_num - length stack) (negsuc 0)))
          × (served.shared.client_idx ≡ index_of (length stack)))
tcp_server_refines_stack_example = tcp_server_refines_stack sockets served served-Reach

tcp_server_keeps_connections_example :
    (stack : List ℤ) × Table served.shared.client_fds served.shared.client_idx
      (total lifted (suc worker_num) served.locals)
      stack
    × (served.shared.table_owner ≡ none
        → Table served.shared.client_fds served.shared.client_idx 0 stack)
    × ((w : ℤ → ℕ)
        → sum w (accepted sockets served.shared.accepts)
          ≡ sum w stack
            + total (carried w) (suc worker_num) served.locals
            + sum w served.shared.closed)
tcp_server_keeps_connections_example = tcp_server_keeps_connections sockets served served-Reach

tcp_server_exclusion_example :
    (in_table (served.locals 2) ≡ true → in_table (served.locals 2) ≡ true → ◌≡◌ {A = ℕ} 2 2)
    × (in_file (served.locals 2) ≡ true → in_file (served.locals 2) ≡ true → ◌≡◌ {A = ℕ} 2 2)
tcp_server_exclusion_example = tcp_server_exclusion sockets served served-Reach 2 2

-- Worker 1 looks at the table before `main` has accepted a connection.
abbrev too_early : List ℕ
too_early = turns 1 11 (turns 2 1 [])

abbrev early_state : System Shared Pc
early_state = reached (run (tcp_step sockets) 11 too_early boot) boot

early_state-Reach : Reach (tcp_step sockets) 11 boot early_state
unfolding run tcp_step ℕ_discrete
early_state-Reach = run-Reach (tcp_step sockets) 11 too_early boot early_state start refl

early_fault : tcp_step sockets 1 early_state.shared (early_state.locals 1) ≡ fault
unfolding run tcp_step ℕ_discrete
early_fault = refl

tcp_server_fault_cases_example : FaultCase sockets early_state 1
tcp_server_fault_cases_example =
    tcp_server_fault_cases sockets early_state early_state-Reach 1 (omega arith) (omega arith)
      early_fault
