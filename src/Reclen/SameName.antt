-- ===== src/Reclen/SameName.antt =====
-- reclen/reclen.c: two files of the same name, open at the same time.
use gawkextlib.Common.{
  ℕ, ◌+◌, ◌<◌, ◌≡◌, ◌≢◌, refl, true, false, none, some, List, ◌∷◌, Bytes, ok, fault, use_after_free,
  same, same_refl, ◌==◌, ==_refl, arith,
}
use gawkextlib.Reclen.{
  Reclen, System, update, remove_buffer_from_list, reclen_close, reclen_take_control_of,
  do_reclen_drop, release,
}

-- Two controlled files: the second one's structure stands before the first one's in the list.
record Opened (s : Reclen) (i j : ℕ) (a b : ℕ) (rest : List ℕ) : Type 0 where
  name_a : Bytes
  name_b : Bytes
  opaque_i : (s.iobufs i).opaque ≡ some a
  opaque_j : (s.iobufs j).opaque ≡ some b
  at_a : s.heap a ≡ some (record { name = name_a; iobuf = i })
  at_b : s.heap b ≡ some (record { name = name_b; iobuf = j })
  listed : s.file_list ≡ b ∷ a ∷ rest
  apart : (b == a) ≡ false
  files : (i == j) ≡ false
  named : same name_b name_a ≡ true

module _ {W : Type 0} (sys : System W) where
  abbrev closed_state : Reclen → ℕ → ℕ → List ℕ → Reclen
  closed_state s i a rest = record s {
    heap = update s.heap a none;
    file_list = a ∷ rest;
    buf = release sys s.buf;
    iobufs = update s.iobufs i (record (s.iobufs i) { fd = none });
  }

  close_older :
      (s : Reclen) (i j a b : ℕ) (rest : List ℕ)
      → Opened s i j a b rest
      → reclen_close sys s i ≡ ok (closed_state s i a rest)
  unfolding reclen_close remove_buffer_from_list
  close_older s i j a b rest h =
      rw (reclen_close, h.opaque_i, h.at_a, h.listed, remove_buffer_from_list, h.at_b, h.named)
        (rw h.opaque_i refl)

  drop_then :
      (s : Reclen) (i a : ℕ) (rest : List ℕ) (name : Bytes)
      → do_reclen_drop sys (closed_state s i a rest) (some name) ≡ fault use_after_free
  unfolding do_reclen_drop remove_buffer_from_list
  drop_then s i a rest name = rw (do_reclen_drop, remove_buffer_from_list, ==_refl a) refl

  close_then :
      (s : Reclen) (i j a b : ℕ) (rest : List ℕ)
      → Opened s i j a b rest
      → (a == b) ≡ false
      → reclen_close sys (closed_state s i a rest) j ≡ fault use_after_free
  unfolding reclen_close remove_buffer_from_list
  close_then s i j a b rest h apart =
      rw (reclen_close, h.files, h.opaque_j, apart, h.at_b, remove_buffer_from_list, ==_refl a) refl

  reclen_take_control_of-Opened :
      (reclen i j : ℕ) (s : Reclen)
      → 0 < reclen
      → i ≢ j
      → (s.iobufs i).name ≡ (s.iobufs j).name
      → Opened
          (reclen_take_control_of sys true
            (some reclen)
            (reclen_take_control_of sys true (some reclen) s i).0
            j).0
          i
          j
          s.unused
          (s.unused + 1)
          s.file_list
  unfolding reclen_take_control_of
  reclen_take_control_of-Opened reclen i j s pos apart e =
      let positive : (reclen == 0) ≡ false = ground arith in
      let older : (s.unused + 1 == s.unused) ≡ false = ground arith in
      let files : (i == j) ≡ false = ground arith in
      let files' : (j == i) ≡ false = ground arith in
      record {
        name_a = (s.iobufs i).name;
        name_b = (s.iobufs j).name;
        opaque_i = rw (reclen_take_control_of, positive, files', ==_refl i) refl;
        opaque_j = rw (reclen_take_control_of, positive, ==_refl j) refl;
        at_a = rw (reclen_take_control_of, positive, older, ==_refl s.unused) refl;
        at_b = rw (reclen_take_control_of, positive, ==_refl (s.unused + 1), files) refl;
        listed = rw (reclen_take_control_of, positive) refl;
        apart = older;
        files = files;
        named = rw e (same_refl (s.iobufs j).name);
      }

  -- When two files of the same name are under control, the one that was opened first is closed
  -- without a fault; but the code takes the other one's structure out of its list, and frees the
  -- structure that is still there. Whichever file is dropped next, and when the second one is
  -- closed, it reads the structure that was freed.
  pub reclen_close-same_name :
      (reclen i j : ℕ) (s : Reclen)
      → 0 < reclen
      → i ≢ j
      → (s.iobufs i).name ≡ (s.iobufs j).name
      → (closed : Reclen) × (reclen_close sys
            (reclen_take_control_of sys true
              (some reclen)
              (reclen_take_control_of sys true (some reclen) s i).0
              j).0
            i
          ≡ ok closed)
        × ((name : Bytes) → do_reclen_drop sys closed (some name) ≡ fault use_after_free)
        × (reclen_close sys closed j ≡ fault use_after_free)
  reclen_close-same_name reclen i j s pos apart e =
      let h = reclen_take_control_of-Opened reclen i j s pos apart e in
      let second =
        (reclen_take_control_of sys true (some reclen)
          (reclen_take_control_of sys true (some reclen) s i).0 j).0 in
      (
        closed_state second i s.unused s.file_list,
        close_older second i j s.unused (s.unused + 1) s.file_list h,
        drop_then second i s.unused s.file_list,
        close_then second i j s.unused (s.unused + 1) s.file_list h (ground arith),
      )
