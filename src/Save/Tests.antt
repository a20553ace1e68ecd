-- ===== src/Save/Tests.antt =====
-- Runs and examples of tfm_save.c.
use libtrs.Base.{◌≡◌, refl, true, false, some, none, [], ◌∷◌}
use libtrs.Types.{Trace}
use libtrs.Save.{create_entry}
use libtrs.Save.Exit.{
  Ending, IsError, refused, in_write, before, returned, joined, takes, cuts, compares, calls_write,
  writes, refuses_owner, calls, drained, is_joined, Ends, begin, more, joined_lem,
}

abbrev copied : Trace
copied = record { addr = 0; owner = some 9; index = 0; title = none; bytes = none; samples = none }

-- An entry goes before the first of a higher index.
create_entry_runs :
    create_entry 5
      (record { trace = none; prev_index = 4 } ∷ record { trace = none; prev_index = 7 } ∷ [])
    ≡ record { trace = none; prev_index = 4 }
      ∷ record { trace = none; prev_index = 5 }
      ∷ record { trace = none; prev_index = 7 }
      ∷ []
unfolding create_entry
create_entry_runs = refl

-- The commit thread takes a batch, whose first write is going on when the set is closed; the next
-- trace of the batch is refused, as `queue->ts` is NULL then.
abbrev failed_end : Ending
failed_end = record { lock_free = false; ts_null = true; commit = returned refused; exit = joined }

abbrev in_batch : Ending
in_batch = record { lock_free = true; ts_null = false; commit = in_write; exit = before }

in_batch-Ends : Ends in_batch
in_batch-Ends =
    more _ _
      (more _ _ (more _ _ (more _ _ begin (takes _ refl refl)) (cuts _ refl refl))
        (compares _ refl refl))
      (calls_write _ refl refl)

failed_end-Ends : Ends failed_end
failed_end-Ends =
    more _ _
      (more _ _
        (more _ _ (more _ _ (more _ _ in_batch-Ends (calls _ refl)) (drained _ refl refl))
          (writes _ refl))
        (refuses_owner _ refl refl))
      (is_joined _ refused refl refl)

joined_lem_example : IsError (returned refused)
joined_lem_example = joined_lem failed_end failed_end-Ends refl
