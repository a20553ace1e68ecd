-- ===== src/Trs/Locks.antt =====
-- What the calls do with the lock of a trace file, whatever the file is.
use libtrs.Base.{
  ℕ, ◌+◌, ◌-◌, ◌*◌, ◌%◌, ◌^◌, ◌<◌, ◌≡◌, ◌⊎◌, refl, ◌∙◌, ltb, leb, ◌==◌, if◌then◌else◌, Bool,
  Bool-cases, false, ◌&&◌, not, List, length, drop, take, length-take, inl, inr, Errno, enomem,
  Status, ok, err, Outcome, done, blocked, fault, Returns, Returns-if, Returns-imp, arith,
}
use libtrs.Types.{Trace}
use libtrs.Files.{File, Io, pure, ◌>>=◌, run_on, read_into, seek}
use libtrs.Headers.{Info, Parsed}
use libtrs.Trs.{
  buffer, Trs, Floats, acquire, end_read, read_record, read_items, seek_trace, fill_trace,
  expand_all, allocates, backend_trs_read,
}

-- Apart from its place, the file is the same.
abbrev SameBytes : {A : Type 0} → File → File × (Errno ⊎ A) → Type 0
SameBytes f r = r.0.bytes ≡ f.bytes

read_into-SameBytes : (n : ℕ) (f : File) → Returns (read_into n n f) (SameBytes f)
unfolding read_into
read_into-SameBytes n f =
    let xs = take n (drop f.pos f.bytes) in
    let l : ltb n (length xs) ≡ false = ground (arith, length-take n (drop f.pos f.bytes)) in
    elim (Bool-cases (length xs == n)) [ inl e ↦ rw (l, e) refl | inr e ↦ rw (l, e) refl ]

seek_trace-SameBytes : (j : ℕ) (p : Parsed) (f : File) → Returns (seek_trace j p f) (SameBytes f)
unfolding seek_trace seek
seek_trace-SameBytes j p f = ground arith

run_on-SameBytes :
    {A B : Type 0} (f : File) (m : Outcome (File × (Errno ⊎ A))) (k : A → Io B)
    → Returns m (SameBytes f)
    → ((a : A) (g : File) → Returns (k a g) (SameBytes g))
    → Returns (run_on m k) (SameBytes f)
run_on-SameBytes f (done (g, inl e)) k h all = h
run_on-SameBytes f (done (g, inr a)) k h all =
    Returns-imp (SameBytes g) (SameBytes f) (k a g) (λ r e. e ∙ h) (all a g)
run_on-SameBytes f blocked k h all = h
run_on-SameBytes f fault k h all = h

read_items-SameBytes : (w n : ℕ) (f : File) → Returns (read_items w n f) (SameBytes f)
unfolding read_items
read_items-SameBytes w n f = elim (Bool-cases ((w == 0) && not (n == 0))) [
  | inl z ↦ rw z refl
  | inr z ↦ rw z (read_into-SameBytes (w * n) f)
]

read_record-SameBytes : (j : ℕ) (p : Parsed) (f : File) → Returns (read_record j p f) (SameBytes f)
unfolding read_record
read_record-SameBytes j p f =
    let i = p.info in
    let items = read_items (i.datatype % 16) i.num_samples in
    let k3 : List ℕ → List ℕ → Io (List ℕ × List ℕ × List ℕ) =
      λ title bytes. items >>= λ temp. pure (title, bytes, temp) in
    let k2 : List ℕ → Io (List ℕ × List ℕ × List ℕ) =
      λ title. read_into i.data_size i.data_size >>= k3 title in
    let s3 : (title bytes : List ℕ) (g : File) → Returns (k3 title bytes g) (SameBytes g) =
      λ title bytes g.
        run_on-SameBytes g (items g) (λ temp. pure (title, bytes, temp))
          (read_items-SameBytes (i.datatype % 16) i.num_samples g) (λ _ _. refl) in
    let s2 : (title : List ℕ) (g : File) → Returns (k2 title g) (SameBytes g) = λ title g.
      run_on-SameBytes g (read_into i.data_size i.data_size g) (k3 title)
        (read_into-SameBytes i.data_size g) (s3 title) in
    run_on-SameBytes f (seek_trace j p f) (λ _. read_into i.title_size i.title_size >>= k2)
      (seek_trace-SameBytes j p f)
      (λ _ g.
        run_on-SameBytes g (read_into i.title_size i.title_size g) k2
          (read_into-SameBytes i.title_size g) s2)

-- After a read: the file, the count and the headers are as before, and the lock has the value `n`; a
-- read that fails leaves the trace as it was.
pub record Unharmed (s : Trs) (t : Trace) (n : ℕ) (r : Trs × Trace × Status) : Type 0 where
  pub bytes : r.0.file.bytes ≡ s.file.bytes
  pub lock : r.0.file_lock ≡ n
  pub count : r.0.num_written ≡ s.num_written
  pub parsed : r.0.parsed ≡ s.parsed
  pub trace : (r.2 ≡ ok) ⊎ (r.1 ≡ t)

fill_trace-cases :
    (fl : Floats) (i : Info) (t : Trace) (x : List ℕ × List ℕ × List ℕ)
    → i.num_samples < 2 ^ 31
    → (t' : Trace) × (fill_trace fl i t x ≡ done (t', ok))
unfolding fill_trace
fill_trace-cases fl i t (a, b, c) h =
    let l : leb (2 ^ 31) i.num_samples ≡ false = ground (arith, h) in
    let t' : Trace = record t {
      title = buffer i.title_size a;
      bytes = buffer i.data_size b;
      samples = buffer i.num_samples (expand_all fl i c);
    } in
    elim (Bool-cases (i.datatype == 0xFF)) [ inl z ↦ (t, rw z) | inr z ↦ (t', rw (z, l)) ]

end_read-Unharmed :
    (fl : Floats) (t : Trace) (s : Trs) (m : Outcome (File × (Errno ⊎ (List ℕ × List ℕ × List ℕ))))
    → s.parsed.info.num_samples < 2 ^ 31
    → Returns m (SameBytes s.file)
    → Returns (end_read fl t s m) (Unharmed s t (s.file_lock + 1))
unfolding end_read
end_read-Unharmed fl t s (done (f, inl e)) b h = record {
  bytes = h;
  lock = refl;
  count = refl;
  parsed = refl;
  trace = inr refl;
}
end_read-Unharmed fl t s (done (f, inr x)) b h =
    let (t', e) = fill_trace-cases fl s.parsed.info t x b in
    rw e (record { bytes = h; lock = refl; count = refl; parsed = refl; trace = inl refl })
end_read-Unharmed fl t s blocked b h = h
end_read-Unharmed fl t s fault b h = h

-- If the lock is free and the set has fewer than 2^31 samples, a read returns, whatever the file
-- holds, the memory gives and the index is; it leaves the bytes of the file, the headers, the count
-- and the lock as they were, and the trace too if it fails.
pub backend_trs_read-Unharmed :
    (fl : Floats) (alloc : ℕ → Bool) (t : Trace) (s : Trs)
    → 0 < s.file_lock
    → s.parsed.info.num_samples < 2 ^ 31
    → Returns (backend_trs_read fl alloc t s) (Unharmed s t s.file_lock)
unfolding backend_trs_read
backend_trs_read-Unharmed fl alloc t s l b =
    let i = s.parsed.info in
    let z : (s.file_lock == 0) ≡ false = ground (arith, l) in
    let n : s.file_lock - 1 + 1 ≡ s.file_lock = omega (arith, l) in
    let h =
      end_read-Unharmed fl t (acquire s) (read_record t.index s.parsed s.file) b
        (read_record-SameBytes t.index s.parsed s.file) in
    let got =
      Returns-imp (Unharmed (acquire s) t (s.file_lock - 1 + 1)) (Unharmed s t s.file_lock)
        (end_read fl t (acquire s) (read_record t.index s.parsed s.file))
        (λ r u. record {
          bytes = u.bytes;
          lock = u.lock ∙ n;
          count = u.count;
          parsed = u.parsed;
          trace = u.trace;
        })
        h in
    Returns-if (Unharmed s t s.file_lock)
      (allocates alloc 0 i.title_size
        && (allocates alloc 1 i.data_size
            && (allocates alloc 2 i.num_samples && allocates alloc 3 i.num_samples)))
      (if s.file_lock == 0
        then blocked
        else end_read fl t (acquire s) (read_record t.index s.parsed s.file))
      (done (s, t, err enomem)) (λ _. rw z got)
      (λ _. record { bytes = refl; lock = refl; count = refl; parsed = refl; trace = inr refl })
