-- ===== src/Tests/Files.antt =====
-- racey-readfile on a file whose first call of `read` returns 8 bytes and whose second none.
use racey_suite.Prelude.{
  ℕ, zero, suc, ◌≡◌, refl, pos, true, List, [], ◌∷◌, String, length, replicate, arith, ℕ_discrete,
}
use racey_suite.Outcome.{returned}
use racey_suite.Machine.{System, Reach, start, run}
use racey_suite.Machine.Laws.{run-Reach}
use racey_suite.Racey.{sig_init}
use racey_suite.ReadFile
use racey_suite.ReadFile.{ReadResult, FileCalls, is_ended}
use racey_suite.ReadFile.Move.{IsRead, is_through, inside}
use racey_suite.ReadFile.Invariant.{HasEnded, readfile_reads_to_end}
use racey_suite.ReadFile.Progress.{EndsBy}
use racey_suite.ReadFile.Main.{readfile_main_can_return}
use racey_suite.Tests.{libc_with, libc_with-CallsSucceed, turns, few, reached}

abbrev two_numbers : ℕ → ReadResult
two_numbers zero = record { r = pos 8; numbers = replicate 64 7 }
two_numbers (suc k) = record { r = pos 0; numbers = replicate 64 7 }

two_numbers-IsRead : (k : ℕ) → IsRead (two_numbers k)
two_numbers-IsRead zero = record { few = omega arith; room = refl }
two_numbers-IsRead (suc k) = record { few = omega arith; room = refl }

two_numbers-EndsBy : EndsBy two_numbers 1
two_numbers-EndsBy zero h = absurd (omega arith)
two_numbers-EndsBy (suc k) h = refl

abbrev file : FileCalls
file = record { descriptor = pos 3; fstat = pos 0; st_size = pos 4096; read = two_numbers }

abbrev arguments : List String
arguments = "racey" ∷ "2" ∷ "2" ∷ "data" ∷ []

arguments_parsed : ReadFile.parse_args (libc_with 2).atoi arguments ≡ returned 2
unfolding ReadFile.parse_args
arguments_parsed = refl

readfile_main_can_return_example :
    (schedule : List ℕ) × (v : ℕ) × (ReadFile.main (libc_with 2) file arguments schedule
      ≡ returned v)
readfile_main_can_return_example =
    readfile_main_can_return (libc_with 2) file two_numbers-IsRead arguments 2 1 two_numbers-EndsBy
      arguments_parsed refl refl refl (libc_with-CallsSucceed 2)

sig_init-sized : length sig_init ≡ 33
unfolding sig_init
sig_init-sized = refl

-- Thread 1 has read the whole file, and thread 2 is in the barrier.
abbrev file_turns : List ℕ
file_turns = turns 2 1 (turns 2 2 (turns 3 1 []))

abbrev file_boot : System ReadFile.Shared ReadFile.Pc
file_boot = ReadFile.boot sig_init

abbrev file_read : System ReadFile.Shared ReadFile.Pc
file_read = reached (run (ReadFile.thread_body two_numbers 2) 2 file_turns file_boot) file_boot

file_read-Reach : Reach (ReadFile.thread_body two_numbers 2) 2 file_boot file_read
unfolding run ReadFile.thread_body sig_init ℕ_discrete
file_read-Reach =
    run-Reach (ReadFile.thread_body two_numbers 2) 2 file_turns file_boot file_read start refl

file_read_through : is_through (file_read.locals 1) ≡ true
unfolding run ReadFile.thread_body sig_init ℕ_discrete
file_read_through = refl

file_read_inside : inside (file_read.locals 1) ≡ true
unfolding run ReadFile.thread_body sig_init ℕ_discrete
file_read_inside = refl

readfile_reads_to_end_example : HasEnded two_numbers file_read.shared.reads
readfile_reads_to_end_example =
    readfile_reads_to_end two_numbers 2 sig_init two_numbers-IsRead few sig_init-sized
      file_read-Reach 1 file_read_through
