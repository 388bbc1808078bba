-- ===== src/Csv/Convert/Join.antt =====
-- csv/csv_convert.c: fields put together with a separator between them.
use gawkextlib.Common.{
  length, ◌≢◌, ◌≡◌, refl, List, [], ◌∷◌, ◌++◌, append-nil, append_assoc, Bytes, arith, ◌∙◌, ap,
}

unfoldable pub join : Bytes → List Bytes → Bytes
join sep [] = []
join sep (f ∷ []) = f
join sep (f ∷ (g ∷ gs)) = f ++ (sep ++ join sep (g ∷ gs))

-- A field put behind others comes with the separator, and the first field without.
pub join-concat :
    (sep : Bytes) (f : Bytes) (fs : List Bytes) (g : Bytes)
    → join sep ((f ∷ fs) ++ g ∷ []) ≡ join sep (f ∷ fs) ++ (sep ++ g)
unfolding join
join-concat sep f [] g = refl
join-concat sep f (h ∷ fs) g = rw (join-concat sep h fs g) (simp append_assoc)

-- A character put behind the last field.
pub join-put :
    (sep : Bytes) (fs : List Bytes) (g : Bytes) (s : Bytes)
    → join sep (fs ++ (g ++ s) ∷ []) ≡ join sep (fs ++ g ∷ []) ++ s
unfolding join
join-put sep [] g s = refl
join-put sep (f ∷ fs) g s =
    rw (join-concat sep f fs (g ++ s), join-concat sep f fs g) (simp append_assoc)

pub join_first :
    (sep : Bytes) (fs : List Bytes) → length fs ≡ 0 → join sep (fs ++ [] ∷ []) ≡ join sep fs
unfolding join
join_first sep [] h = refl
join_first sep (f ∷ fs) h = absurd (omega arith)

pub join_next :
    (sep : Bytes) (fs : List Bytes) → length fs ≢ 0 → join sep (fs ++ [] ∷ []) ≡ join sep fs ++ sep
join_next sep [] h = absurd (h refl)
join_next sep (f ∷ fs) h =
    join-concat sep f fs [] ∙ ap (λ (x : Bytes). join sep (f ∷ fs) ++ x) (append-nil sep)
