-- ===== src/Links/Tests.antt =====
-- include/list.h on a list with head 1 and the nodes 2 and 3.
use snap_os.Prelude.{ℕ, ◌+◌, ◌%◌, refl, arith}
use snap_os.Links.{Links, list_add_tail}
use snap_os.Links.Ring.{IsRing, with_last, list_add_tail-IsRing}

abbrev three : Links
three = record { next = λ i. i % 3 + 1; prev = λ i. (i + 1) % 3 + 1 }

abbrev node : ℕ → ℕ
node i = i + 1

three-IsRing : IsRing three node 2
three-IsRing = record {
  apart = λ i j lt le. omega arith;
  next = λ i lt. omega arith;
  last = refl;
  prev = λ i lt. omega arith;
  first = refl;
}

list_add_tail-IsRing_example : IsRing (list_add_tail 7 1 three) (with_last node 2 7) 3
list_add_tail-IsRing_example = list_add_tail-IsRing 7 three-IsRing (λ i le. omega arith)
