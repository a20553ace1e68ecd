-- ===== src/Save/Commits.antt =====
-- What the commit thread writes.
use libtrs.Base.{ℕ, ◌<◌, true, false, none, some, List, [], ◌∷◌, length}
use libtrs.Types.{Trace}
use libtrs.Headers.{Info, unknown_num_traces}
use libtrs.Trs.{Floats}
use libtrs.Trs.States.{Content, with_content, open_set}
use libtrs.Save.{CommitEntry, CommitQueue, sentinel_index}

-- A queue for a set whose file holds `cs`, with the number `k` in its header.
abbrev pub queue_of : Floats → Info → ℕ → ℕ → ℕ → List Content → List CommitEntry → CommitQueue
queue_of fl i ts k done_before cs entries = record {
  ts = ts;
  set = open_set true fl i k unknown_num_traces cs;
  sentinel = 0;
  entries = entries;
  written = length cs;
  sentinel_seen = false;
  num_traces_written = done_before;
}

-- The entries of traces with these indices in the set before and these contents, and the sentinel.
abbrev pub batch : Info → Trace → List (ℕ × Content) → List CommitEntry
batch i t [] = record { trace = none; prev_index = sentinel_index } ∷ []
batch i t ((p, c) ∷ ps) =
    record { trace = some (with_content i c t); prev_index = p } ∷ batch i t ps

abbrev pub contents : List (ℕ × Content) → List Content
contents [] = []
contents ((p, c) ∷ ps) = c ∷ contents ps

-- The indices are none that the sentinel has.
abbrev pub AreIndices : List (ℕ × Content) → Type 0
AreIndices [] = Unit {0}
AreIndices ((p, c) ∷ ps) = (p < sentinel_index) × AreIndices ps
