-- ===== src/MmapTmpfile.antt =====
-- racey-mmaptmpfile.c: as racey-basic.c, with `sig` in a temporary file that is mapped shared.
-- `CloseMmap` is to unmap, close and remove it.
pub mod Main
use racey_suite.Prelude.{
  ℕ, zero, suc, ◌+◌, ◌==◌, ℤ, pos, negsuc, Bool, true, false, Option, none, some, List, String,
  pos_part, replicate, set?,
}
use racey_suite.Outcome.{Outcome, returned, ◌>>=◌, ◌>>◌, assert, access}
use racey_suite.Machine.{Program}
use racey_suite.Racey.{m_init}
use racey_suite.Launch.{Libc, parse_args, run_main}
use racey_suite.Gate.{Shared, Pc, gate_step, boot, ended}

-- The results of the calls on the file.
pub record FileCalls : Type 0 where
  pub mkstemp : ℤ
  pub ftruncate : ℕ
  pub mmap_succeeds : Bool
  pub munmap : ℤ
  pub close : ℤ
  pub unlink : ℤ

abbrev pub is_descriptor : ℤ → Bool
is_descriptor (pos fd) = true
is_descriptor (negsuc k) = false

-- What the process holds of the file: its descriptor, the mapping, and the name in the directory.
pub record TmpFile : Type 0 where
  pub descriptor : Option ℕ
  pub mapped : Bool
  pub linked : Bool

-- `mmap_size`, in words.
abbrev pub mmap_words : ℕ
mmap_words = 33

-- `sig[i] = i`, with `left` rounds to go; `none` of `set?` is a write behind the mapping.
unfoldable pub init_sig : List ℕ → ℕ → ℕ → Outcome (List ℕ)
init_sig sig i zero = returned sig
init_sig sig i (suc left) = do after ← access (set? sig i i); init_sig after (i + 1) left

-- `InitMmap`: the file, and the contents of `sig`. The file is new, so that ftruncate fills it with
-- zeros.
unfoldable pub init_mmap : FileCalls → Outcome (TmpFile × List ℕ)
unfolding init_sig
init_mmap io = do
  assert (is_descriptor io.mkstemp)
  assert (io.ftruncate == 0)
  assert io.mmap_succeeds
  sig ← init_sig (replicate mmap_words 0) 0 33
  returned (record { descriptor = some (pos_part io.mkstemp); mapped = true; linked = true }, sig)

-- What the calls of `CloseMmap` do: a call that fails leaves the file as it was.
abbrev pub after_munmap : TmpFile → ℤ → TmpFile
after_munmap file (pos r) = record file { mapped = false }
after_munmap file (negsuc e) = file

abbrev pub after_close : TmpFile → ℤ → TmpFile
after_close file (pos r) = record file { descriptor = none }
after_close file (negsuc e) = file

abbrev pub after_unlink : TmpFile → ℤ → TmpFile
after_unlink file (pos r) = record file { linked = false }
after_unlink file (negsuc e) = file

-- `CloseMmap`, which looks at none of the results.
unfoldable pub close_mmap : FileCalls → TmpFile → TmpFile
close_mmap io file = after_unlink (after_close (after_munmap file io.munmap) io.close) io.unlink

-- `ThreadBody`, whose code is that of racey-basic.c.
unfoldable pub thread_body : ℕ → Program Shared Pc
unfolding gate_step
thread_body max_loop = gate_step (λ tid i. true) max_loop

-- The signature, and what is left of the file.
unfoldable pub main : Libc → FileCalls → List String → List ℕ → Outcome (ℕ × TmpFile)
unfolding parse_args run_main thread_body init_mmap close_mmap m_init
main libc io argv schedule = do
  config ← parse_args libc.atoi argv
  start ← init_mmap io
  mix_sig ←
      run_main (thread_body config.max_loop) ended (λ s. s.mem.sig)
        (boot (record { sig = start.1; m = m_init }) config.num_procs) libc 1 config.num_procs
        schedule
  returned (mix_sig, close_mmap io start.0)
