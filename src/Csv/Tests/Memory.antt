-- ===== src/Csv/Tests/Memory.antt =====
-- An allocator and arrays that meet what is assumed of them, for the examples.
use gawkextlib.Common.{
  ℕ, zero, suc, ◌≤◌, ◌≡◌, refl, ap, true, Option, none, some, [], ◌∷◌, ◌++◌, Bytes, length,
  length-append, length-replicate, length-take_le, take, replicate, ◌==◌, if◌then◌else◌, arith, ◌∙◌,
}
use gawkextlib.Csv.StrBuf.Append.{Reliable}
use gawkextlib.Csv.StrBuf.{Allocator, StrBuf, null}
use gawkextlib.Gawk.{ArrayApi}

take-append_le : (k : ℕ) (a b : Bytes) → k ≤ length a → take k (a ++ b) ≡ take k a
take-append_le zero a b h = refl
take-append_le (suc k) [] b h = absurd (omega arith)
take-append_le (suc k) (x ∷ a) b h = ap (◌∷◌ x) (take-append_le k a b (omega arith))

take-take_le : (k n : ℕ) (a : Bytes) → k ≤ n → take k (take n a) ≡ take k a
take-take_le zero n a h = refl
take-take_le (suc k) zero a h = absurd (omega arith)
take-take_le (suc k) (suc n) [] h = refl
take-take_le (suc k) (suc n) (x ∷ a) h = ap (◌∷◌ x) (take-take_le k n a (omega arith))

pub resized : Bytes → ℕ → Bytes
resized a n = take n (a ++ replicate n 0)

pub length-resized : (a : Bytes) (n : ℕ) → length (resized a n) ≡ n
unfolding resized
length-resized a n =
    length-take_le n (a ++ replicate n 0)
      (omega (arith, length-append a (replicate n 0), length-replicate {A = ℕ} n 0))

pub resized-keeps : (a : Bytes) (n k : ℕ) → k ≤ length a → k ≤ n → take k (resized a n) ≡ take k a
unfolding resized
resized-keeps a n k h le = take-take_le k n _ le ∙ take-append_le k a _ h

pub some_lem : {a b : Bytes} → some a ≡ some b → a ≡ b
some_lem e = cc

abbrev pub memory : Allocator
memory = record {
  malloc = λ n. some (replicate n 0);
  realloc = λ a n. some (resized a n);
  length-malloc = λ n b e. rw (← some_lem e) (length-replicate {A = ℕ} n 0);
  length-realloc = λ a n b e. rw (← some_lem e) (length-resized a n);
  take-realloc = λ a n k b e h le. rw (← some_lem e) (resized-keeps a n k h le);
}

pub memory-Reliable : Reliable memory
memory-Reliable = record { malloc_some = λ e. cc; realloc_some = λ b n e. cc }

abbrev pub arrays : ArrayApi
arrays = record {
  Array = ℕ → Option Bytes;
  get = λ a i. a i;
  set_array_element = λ a i v. (λ j. if i == j then some v else a j, true);
  clear_array = λ a i. none;
  get-clear_array = λ a i. refl;
  get-set_array_element = λ a i j v h. refl;
}

abbrev pub no_buffer : StrBuf
no_buffer = record { str = null; len = 0; capacity = 0 }
