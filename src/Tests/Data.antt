-- ===== src/Tests/Data.antt =====
-- The ring queue and the bit map at concrete inputs.
use mos_rust.Prelude.{ℕ, ◌≡◌, ◌^◌, refl, [], ◌∷◌, true, false, none, some, ok, arith}
use mos_rust.Bitmap.{BitMap, first_zero, first_one}
use mos_rust.Bitmap.Access.{IsValid}
use mos_rust.Bitmap.Search.{FirstReading, searches-FirstReading}
use mos_rust.Queue.{Queue}
use mos_rust.Queue.Refine.{Holds}
use mos_rust.Queue.Calls.{
  pushes, pops, serves, fronts, backs, iters, flag, entry, entries, perform_all, listed, listed_all,
  perform_all-listed_all,
}

-- 8, then 9, round the end of the slots
abbrev wrapped : Queue ℕ
wrapped = record { capacity = 3; slots = some 9 ∷ none ∷ some 8 ∷ []; head = 2; tail = 1; len = 2 }

wrapped-Holds : Holds wrapped (8 ∷ 9 ∷ [])
wrapped-Holds = record {
  room = omega arith;
  head_in = omega arith;
  len_in = omega arith;
  tail_at = omega arith;
  content = refl;
}

-- The queue is full after `push 5`; the calls go round the end of the slots.
perform_all-listed_all_example :
    (q' : Queue ℕ) × (perform_all wrapped
        (pushes 5 ∷ pushes 6 ∷ serves ∷ pushes 6 ∷ iters ∷ backs ∷ pops ∷ fronts ∷ [])
      ≡ ok (
        flag true
            ∷ flag false
            ∷ entry (some 8)
            ∷ flag true
            ∷ entries (9 ∷ 5 ∷ 6 ∷ [])
            ∷ entry (some 6)
            ∷ flag true
            ∷ entry (some 5)
            ∷ [],
        q',
      ))
unfolding listed_all listed
perform_all-listed_all_example =
    perform_all-listed_all
      (pushes 5 ∷ pushes 6 ∷ serves ∷ pushes 6 ∷ iters ∷ backs ∷ pops ∷ fronts ∷ []) wrapped-Holds

-- Positions 1 and 39 of 40, in two words.
abbrev marked : BitMap
marked = record { size = 40; words = 2 ^ 30 ∷ 2 ^ 24 ∷ [] }

marked-IsValid : IsValid marked
marked-IsValid = record { covered = omega arith; fits = omega arith }

searches-FirstReading_example :
    FirstReading marked true (first_one marked) × FirstReading marked false (first_zero marked)
searches-FirstReading_example = searches-FirstReading marked marked-IsValid
