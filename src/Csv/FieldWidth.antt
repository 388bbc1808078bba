-- ===== src/Csv/FieldWidth.antt =====
-- csv/awk_fieldwidth_info.c: the growing list of the fields' places in a record.
pub mod Append
use gawkextlib.Common.{
  ℕ, ◌+◌, ◌*◌, ◌≤◌, ◌≡◌, List, [], Run, ok, fault, out_of_bounds, ◌>>=◌, length, take, set, ltb,
  leb, if◌then◌else◌,
}

-- An element of `fields`: what is skipped before the field, and its length.
pub record Field : Type 0 where
  pub skip : ℕ
  pub len : ℕ

-- `emalloc` and `erealloc`, which end the process when they fail, for blocks of fields.
pub record FieldAllocator : Type 0 where
  pub emalloc : ℕ → List Field
  pub erealloc : List Field → ℕ → List Field
  pub length-emalloc : (n : ℕ) → length (emalloc n) ≡ n
  pub length-erealloc : (a : List Field) (n : ℕ) → length (erealloc a n) ≡ n
  pub take-erealloc :
      (a : List Field) (n k : ℕ) → k ≤ length a → k ≤ n → take k (erealloc a n) ≡ take k a

-- `awk_fieldwidth_info_t`; `fields` is the whole block.
pub record FieldWidthInfo : Type 0 where
  pub nf : ℕ
  pub fields : List Field

abbrev pub initsize : ℕ
initsize = 10

unfoldable pub awk_fieldwidth_info_start : FieldWidthInfo → FieldWidthInfo
awk_fieldwidth_info_start info = record info { nf = 0 }

module _ (mem : FieldAllocator) where
  open mem use {emalloc, erealloc}

  -- With the capacity that the code returns, here and below.
  unfoldable pub awk_fieldwidth_info_init : FieldWidthInfo × ℕ
  awk_fieldwidth_info_init = (record { nf = 0; fields = emalloc initsize }, initsize)

  -- `if ((*info)->nf >= capacity) { … }`
  unfoldable pub grow : FieldWidthInfo → ℕ → FieldWidthInfo × ℕ
  grow info capacity =
      if leb capacity info.nf
      then (record info { fields = erealloc info.fields (capacity * 2) }, capacity * 2)
      else (info, capacity)

  unfoldable pub awk_fieldwidth_info_add : FieldWidthInfo → ℕ → ℕ → ℕ → Run (FieldWidthInfo × ℕ)
  awk_fieldwidth_info_add info capacity skip len =
      let grown = (grow info capacity).0 in
      if ltb grown.nf (length grown.fields)
      then ok (
        record {
          nf = grown.nf + 1;
          fields = set grown.fields grown.nf (record { skip = skip; len = len });
        },
        (grow info capacity).1,
      )
      else fault out_of_bounds
