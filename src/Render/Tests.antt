-- ===== src/Render/Tests.antt =====
-- Runs of the threads of `render.c`.
use libtrs.Base.{
  times, ◌+◌, ◌*◌, ◌≤◌, ◌≡◌, ◌⊎◌, refl, ltb, none, some, true, false, List, [], ◌∷◌, enomem, Status,
  ok, err, done, bit, arith,
}
use libtrs.Render.{
  busy, failed, stopped, kills, ended, Render, new_render, RenderStep, Rendering, begin, wake,
  search,
}
use libtrs.Render.Ends.{steps, ended_lem, Rendering-ends}
use libtrs.Render.Turns.{Turn, controller, worker, turn, play, play-Rendering}

-- One thread and one trace.
abbrev one_trace : List Turn
one_trace =
    controller
    ∷ worker 0 none
    ∷ worker 0 none
    ∷ worker 0 none
    ∷ controller
    ∷ controller
    ∷ controller
    ∷ controller
    ∷ worker 0 none
    ∷ controller
    ∷ controller
    ∷ []

abbrev rendered : Render
rendered = record {
  controller = ended ok;
  curr_index = 1;
  num_traces = 1;
  done_signal = 0;
  workers =
      record { phase = stopped; ret = busy; trace_index = 0; thread_signal = 0; ts_null = true }
      ∷ [];
  got = 0 ∷ [];
}

play-one_trace : play one_trace (new_render 1 1) ≡ done rendered
unfolding play turn wake search
play-one_trace = refl

rendered-Rendering : Rendering 1 1 rendered
rendered-Rendering = play-Rendering one_trace (new_render 1 1) rendered begin play-one_trace

-- The same turns, where `trace_get` fails: the call succeeds all the same.
abbrev failing_get : List Turn
failing_get =
    controller
    ∷ worker 0 none
    ∷ worker 0 (some enomem)
    ∷ worker 0 none
    ∷ controller
    ∷ controller
    ∷ controller
    ∷ controller
    ∷ controller
    ∷ controller
    ∷ []

abbrev not_rendered : Render
not_rendered = record {
  controller = ended ok;
  curr_index = 1;
  num_traces = 1;
  done_signal = 0;
  workers =
      record {
        phase = stopped;
        ret = failed enomem;
        trace_index = 0;
        thread_signal = 1;
        ts_null = true;
      }
      ∷ [];
  got = 0 ∷ [];
}

play-failing_get : play failing_get (new_render 1 1) ≡ done not_rendered
unfolding play turn wake search
play-failing_get = refl

-- Of two traces, where the error is seen before the second is given out.
play-seen_error :
    play
      (controller ∷ worker 0 none ∷ worker 0 (some enomem) ∷ worker 0 none ∷ controller ∷ [])
      (new_render 1 2)
    ≡ done (record {
      controller = kills 0 (err enomem);
      curr_index = 1;
      num_traces = 2;
      done_signal = 0;
      workers =
          record {
            phase = stopped;
            ret = failed enomem;
            trace_index = 0;
            thread_signal = 0;
            ts_null = false;
          }
          ∷ [];
      got = 0 ∷ [];
    })
unfolding play turn wake search
play-seen_error = refl

ended_lem_example : times 0 (0 ∷ []) ≡ bit (ltb 0 1)
ended_lem_example = ended_lem 1 1 rendered rendered-Rendering refl 0

Rendering-ends_example :
    (steps rendered-Rendering ≤ 4 * 1 + 6 * 1 + 6)
    × (((st : Status) × (rendered.controller ≡ ended st)) ⊎ ((z : Render) × RenderStep rendered z))
Rendering-ends_example = Rendering-ends 1 1 rendered rendered-Rendering (omega arith)
