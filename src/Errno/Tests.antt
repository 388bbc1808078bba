-- ===== src/Errno/Tests.antt =====
-- errno/errno.c: the theorem at a short table.
use gawkextlib.Common.{◌≡◌, refl, some, List, [], ◌∷◌, codes, same, same_refl}
use gawkextlib.Errno.RoundTrip.{do_name2errno-do_errno2name}
use gawkextlib.Errno.{Entry, whole, errno2name, numerr, do_errno2name, Strings, do_name2errno}

abbrev strings : Strings
strings = record { strcasecmp = same; strerror = λ n. [] }

abbrev two_numbers : List Entry
two_numbers = record { n = 1; name = codes "EPERM" } ∷ record { n = 2; name = codes "ENOENT" } ∷ []

named : do_errno2name two_numbers (some (whole 2)) ≡ some (codes "ENOENT")
unfolding do_errno2name errno2name numerr
named = refl

do_name2errno-do_errno2name_example :
    do_name2errno strings two_numbers (some (codes "ENOENT")) ≡ some 2
do_name2errno-do_errno2name_example =
    do_name2errno-do_errno2name strings two_numbers two_numbers 2 (codes "ENOENT") same_refl
      (λ i s h. h) ((λ e. cc), ((λ e. refl), tt)) named
