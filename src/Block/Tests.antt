-- ===== src/Block/Tests.antt =====
-- Runs of the block transformation.
use libtrs.Base.{
  ℕ, zero, suc, ◌/◌, ◌≤◌, ◌≡◌, refl, ltb, ◌==◌, inl, inr, true, false, none, List, [], ◌∷◌, take,
  Errno, einval, ok, done, Returns, arith,
}
use libtrs.Block.{
  Criteria, done_listlen, done_singular, last, named, Consumer, MetaBlock, BlockState, new_state,
  accumulate_into,
}
use libtrs.Block.Gets.{
  find_result, set_result, delete_result, finish_block, block_finalize, block_get, Reached, begin,
  collects,
}
use libtrs.Block.Finals.{block_finalize_found}
use libtrs.Block.Returns.{block_get-Returns}
use libtrs.Block.Singles.{Single, trace_at, outputs, gets, gets-outputs}

-- Traces and blocks are numbers; a block has the numbers with its tens, and is their sum.
abbrev tens : Criteria → Consumer ℕ ℕ ℕ
tens cr = record {
  criteria = cr;
  trace_interesting = λ t. ltb 9 t;
  trace_matches = λ t k. t / 10 == k / 10;
  initialize = λ t. inr t;
  accumulate = λ t k. (ok, k);
  finalize = λ k. last k k;
  title_len = λ r. none;
}

tens-Single : Single (tens done_singular)
tens-Single = record {
  made = λ t. t;
  given = λ t j. named t j 0;
  singular = refl;
  starts = λ t. refl;
  out = λ t. t;
  rest = λ t. t;
  ends = λ t. refl;
  names = λ t d j. refl;
}

abbrev source : List ℕ
source = 10 ∷ 3 ∷ 20 ∷ 30 ∷ []

gets_in_order :
    gets (tens done_singular) (trace_at source) 5 2 0 new_state
    ≡ done (
      record { next_index = 3; done_index = 2; nblocks = 0; lock = 1; blocks = [] },
      named 10 0 0 ∷ named 20 2 0 ∷ [],
    )
unfolding gets block_get find_result set_result delete_result
gets_in_order = refl

gets-outputs_example :
    Returns
      (gets (tens done_singular) (trace_at source) 5 2 0 new_state)
      (λ x. x.1 ≡ take 2 (outputs (tens done_singular) tens-Single 0 source))
gets-outputs_example = gets-outputs (tens done_singular) tens-Single 2 5 source (omega arith)

-- With DONE_LISTLEN, the second trace asked for first.
get_out_of_order :
    block_get (tens done_listlen) (trace_at source) (λ _. true) true 5 1 new_state
    ≡ done (
      record {
        next_index = 5;
        done_index = 1;
        nblocks = 3;
        lock = 1;
        blocks =
            record { is_done = true; src_index = 0; res_index = 0; num_out = 0; block = 10 }
            ∷ record { is_done = false; src_index = 2; res_index = 2; num_out = 0; block = 20 }
            ∷ record { is_done = false; src_index = 3; res_index = 3; num_out = 0; block = 30 }
            ∷ [];
      },
      inl einval,
    )
unfolding block_get accumulate_into
get_out_of_order = refl

abbrev two_blocks : BlockState ℕ
two_blocks = record {
  next_index = 0;
  done_index = 1;
  nblocks = 2;
  lock = 1;
  blocks =
      record { is_done = true; src_index = 0; res_index = 0; num_out = 0; block = 10 }
      ∷ record { is_done = false; src_index = 2; res_index = 2; num_out = 0; block = 20 }
      ∷ [];
}

abbrev one_listed : BlockState ℕ
one_listed = record {
  next_index = 0;
  done_index = 0;
  nblocks = 1;
  lock = 1;
  blocks = record { is_done = false; src_index = 0; res_index = 0; num_out = 0; block = 10 } ∷ [];
}

two_blocks-Reached : Reached (tens done_listlen) two_blocks []
unfolding accumulate_into
two_blocks-Reached =
    collects one_listed two_blocks [] true 2 20 ok
      (collects new_state one_listed [] true 0 10 ok begin refl) refl

trace_at_end : (j : ℕ) → 4 ≤ j → (e : Errno) × (trace_at source j ≡ inl e)
trace_at_end zero h = absurd (omega (arith, h))
trace_at_end (suc zero) h = absurd (omega (arith, h))
trace_at_end (suc (suc zero)) h = absurd (omega (arith, h))
trace_at_end (suc (suc (suc zero))) h = absurd (omega (arith, h))
trace_at_end (suc (suc (suc (suc j)))) h = (einval, refl)

block_finalize_found_example :
    (b : MetaBlock ℕ) × (b.is_done ≡ true)
    × (b.res_index ≡ 0)
    × (block_finalize (tens done_listlen) true 0 two_blocks
        ≡ done (
            finish_block
              (tens done_listlen)
              true
              0
              b
              ((tens done_listlen).finalize b.block)
              two_blocks))
block_finalize_found_example =
    block_finalize_found (tens done_listlen) true 0 two_blocks [] two_blocks-Reached (omega arith)
      refl

block_get-Returns_example :
    Returns
      (block_get (tens done_listlen) (trace_at source) (λ _. true) true 5 0 two_blocks)
      (λ x. (x.0).lock ≡ 1)
block_get-Returns_example =
    block_get-Returns (tens done_listlen) true (trace_at source) (λ _. true) 0 4 two_blocks [] 5
      trace_at_end two_blocks-Reached (omega arith)
