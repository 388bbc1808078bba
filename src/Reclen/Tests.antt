-- ===== src/Reclen/Tests.antt =====
-- reclen/reclen.c: the theorems at concrete inputs.
use mathlib.Core.List.{flatten}
use gawkextlib.Common.{
  ℕ, ◌≡◌, refl, true, false, none, some, List, [], ◌∷◌, Bytes, codes, ok, fault, use_after_free,
  length-replicate, replicate, take, drop, if◌then◌else◌, ◌==◌, arith,
}
use gawkextlib.Reclen.Records.{IsValid, Holds, reclen_get_record_lem}
use gawkextlib.Reclen.WholeFile.{AreRecords, read_all, read_all-AreRecords}
use gawkextlib.Reclen.SameName.{reclen_close-same_name}
use gawkextlib.Reclen.{
  Iobuf, DataBuffer, Reclen, bytes, got, System, reclen_get_record, reclen_close,
  reclen_take_control_of, do_reclen_drop,
}

-- A system with one file, which is the list of the bytes that are left.
abbrev one_file : System Bytes
one_file = record {
  erealloc = λ p n. replicate n 0;
  read = λ w fd n. (drop n w, bytes (take n w));
  length-erealloc = λ p n. length-replicate {A = ℕ} n 0;
}

abbrev unread : Iobuf
unread = record {
  name = codes "f";
  fd = some 3;
  opaque = none;
  get_record = false;
  close_func = false;
}

abbrev nothing_open : Reclen
nothing_open = record {
  heap = λ i. none;
  unused = 1;
  file_list = [];
  buf = record { p = none; len = 0; refs = 0 };
  iobufs = λ i. unread;
}

-- One file under control, with a data buffer of two bytes.
abbrev controlled : Reclen
controlled = record {
  heap = λ i. if i == 1 then some (record { name = codes "f"; iobuf = 0 }) else none;
  unused = 2;
  file_list = 1 ∷ [];
  buf = record { p = some (9 ∷ 9 ∷ []); len = 2; refs = 1 };
  iobufs = λ i. record unread { opaque = some 1; get_record = true; close_func = true };
}

some_lem : {a b : Bytes} → some a ≡ some b → a ≡ b
some_lem e = cc

controlled-IsValid : IsValid controlled.buf
controlled-IsValid = record { unallocated = λ e. cc; sized = λ b e. rw (← some_lem e) refl }

reclen_get_record_lem_example :
    (b : DataBuffer) × (reclen_get_record one_file (codes "abcde") (some 3) controlled 0
      ≡ ok (codes "de", record controlled { buf = b }, got (codes "abc")))
    × IsValid b
    × Holds one_file b (codes "abc")
reclen_get_record_lem_example =
    reclen_get_record_lem one_file (codes "abcde") (codes "de") 3 0 1 controlled (codes "abc") refl
      (omega arith) controlled-IsValid refl (omega arith)

read_all-AreRecords_example :
    (rs : List Bytes) × (read_all one_file 6 (codes "abcde") (some 3) controlled 0 ≡ ok rs)
    × (flatten rs ≡ codes "abcde")
    × AreRecords 3 rs
read_all-AreRecords_example =
    read_all-AreRecords one_file (λ w. w) (λ w fd n. (drop n w, refl, refl)) 6 (codes "abcde") 3 0 1
      controlled refl (omega arith) controlled-IsValid (omega arith)

reclen_close-same_name_example :
    (closed : Reclen) × (reclen_close one_file
        (reclen_take_control_of one_file true
          (some 3)
          (reclen_take_control_of one_file true (some 3) nothing_open 0).0
          1).0
        0
      ≡ ok closed)
    × ((name : Bytes) → do_reclen_drop one_file closed (some name) ≡ fault use_after_free)
    × (reclen_close one_file closed 1 ≡ fault use_after_free)
reclen_close-same_name_example =
    reclen_close-same_name one_file 3 0 1 nothing_open (omega arith) (λ e. cc) refl
