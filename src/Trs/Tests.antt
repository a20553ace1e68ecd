-- ===== src/Trs/Tests.antt =====
-- Runs and examples of backend_trs.c, with sets of two samples of one byte.
use libtrs.Base.{◌≡◌, refl, true, false, some, [], ◌∷◌, inr, done, ok, Returns, arith}
use libtrs.Files.{File}
use libtrs.Headers.{length_of_trace}
use libtrs.Trs.{Trs, backend_trs_open, backend_trs_read}
use libtrs.Trs.States.{byte, with_content, open_set}
use libtrs.Trs.RoundTrip.{blank, save, load, load-save}
use libtrs.Trs.Locks.{Unharmed, backend_trs_read-Unharmed}
use libtrs.Trs.Demo.{
  floats, floats-IsMachine, info, info-Fits, first, second, first-IsContent, second-IsContent,
}

load-save_example :
    (f : File) × (save floats info (first ∷ second ∷ []) ≡ done (f, ok))
    × ((s : Trs) × (backend_trs_open (some (record f { pos = 0 })) true true true ≡ done (inr s))
        × (s.parsed.info.num_traces ≡ 2))
    × (load floats f (blank 1) ≡ done (with_content info second (blank 1), ok))
unfolding length_of_trace
load-save_example =
    load-save floats info (first ∷ second ∷ []) second (blank 1) floats-IsMachine info-Fits byte
      (first-IsContent, (second-IsContent, tt)) (omega arith) (omega arith) refl

-- Index 5 is not in the file.
backend_trs_read-Unharmed_example :
    Returns
      (backend_trs_read floats (λ _. true) (blank 5) (open_set false floats info 1 1 (first ∷ [])))
      (Unharmed (open_set false floats info 1 1 (first ∷ [])) (blank 5) 1)
backend_trs_read-Unharmed_example =
    backend_trs_read-Unharmed floats (λ _. true) (blank 5)
      (open_set false floats info 1 1 (first ∷ [])) (omega arith) (omega arith)
