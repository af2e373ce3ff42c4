-- ===== src/MmapTmpfile/Main.antt =====
-- `main` of racey-mmaptmpfile.c.
use racey_suite.Prelude.{
  ℕ, ◌≢◌, ◌==◌, refl, true, List, String, ◌≡◌, ◌⊎◌, some, pos_part, Bool-cases, inl, inr,
}
use racey_suite.Outcome.{Outcome, returned, exited, aborted, crashed, unfinished, ◌>>=◌}
use racey_suite.Racey.{sig_init}
use racey_suite.Launch.{Libc, init_memory}
use racey_suite.Launch.Args.{Accepts_bounds, parse_args-ne-crashed}
use racey_suite.Gate.Main.{gate_main, gate_main-ne-crashed}
use racey_suite.MmapTmpfile.{main, FileCalls, TmpFile, is_descriptor, init_mmap, close_mmap}

>>=-ne-crashed :
    {A B : Type 0} (m : Outcome A) (f : A → B) → m ≢ crashed → (m >>= λ a. returned (f a)) ≢ crashed
>>=-ne-crashed (returned a) f h e = cc
>>=-ne-crashed (exited k) f h e = cc
>>=-ne-crashed aborted f h e = cc
>>=-ne-crashed crashed f h e = h refl
>>=-ne-crashed unfinished f h e = cc

abbrev opened_file : FileCalls → TmpFile
opened_file io = record { descriptor = some (pos_part io.mkstemp); mapped = true; linked = true }

-- `InitMmap` aborts, or fills the mapping with the start values of `sig`.
init_mmap-cases :
    (io : FileCalls)
    → (init_mmap io ≡ aborted) ⊎ ((file : TmpFile) × (init_mmap io ≡ returned (file, sig_init)))
unfolding init_mmap sig_init
init_mmap-cases io = elim (Bool-cases (is_descriptor io.mkstemp)) [
  | inr e ↦ inl (rw e refl)
  | inl e ↦ elim (Bool-cases (io.ftruncate == 0)) [
    | inr f ↦ inl (rw (e, f) refl)
    | inl f ↦ elim (Bool-cases io.mmap_succeeds) [
      | inr g ↦ inl (rw (e, f, g) refl)
      | inl g ↦ inr (opened_file io, rw (e, f, g) refl)
    ]
  ]
]

-- Whatever the command line, the results of the library calls, those of the calls on the file and
-- the schedule, racey-mmaptmpfile makes no access out of bounds: neither of the mapping, which
-- `InitMmap` fills and the threads use, nor of m[].
pub mmaptmpfile_main-ne-crashed :
    (libc : Libc) (io : FileCalls) (argv : List String) (schedule : List ℕ)
    → main libc io argv schedule ≢ crashed
unfolding main init_memory
mmaptmpfile_main-ne-crashed libc io argv schedule = parse_args-ne-crashed libc.atoi argv _ λ c a.
    let (low, high, loops) = Accepts_bounds a in
    elim (init_mmap-cases io) [
      | inl e ↦ rw e (λ h. cc)
      | inr (file, e) ↦ rw e (
          >>=-ne-crashed {A = ℕ} {B = ℕ × TmpFile}
            (gate_main (λ tid i. true) c.max_loop libc c.num_procs schedule)
            (λ mix_sig. (mix_sig, close_mmap io file))
            (gate_main-ne-crashed (λ tid i. true) c.max_loop libc c.num_procs (λ t i. refl) low high
              schedule))
    ]
