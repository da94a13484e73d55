-- ===== src/Examples/Scanner.antt =====
-- Runs of the scanner's theorems.
use intimatr.Prelude.{
  suc, ◌+◌, ◌≡◌, ◌↔◌, refl, min, true, some, List, ok, arith, leb, pos, negsuc, ◌+ℤ◌, ◌-ℤ◌,
}
use intimatr.Float.{zero}
use intimatr.Scanner.Predicate.{signed, unsigned, increased_by, decreased_by, matches}
use intimatr.Scanner.Predicate.Laws.{IsEpsilon, signed_difference, unsigned_difference}
use intimatr.Scanner.Engine.{ScanChunk, cut, aligned_scan_span}
use intimatr.Scanner.Engine.Chunks.{Cut, region_cut}
use intimatr.Scanner.Engine.Slots.{attempts, fresh, slots_granted}

zero-IsEpsilon : IsEpsilon zero
zero-IsEpsilon = record { bounded = refl; nonnegative = refl }

unsigned_difference_example :
    ((matches (increased_by (unsigned 5)) (unsigned 12) (some (unsigned 7)) zero ≡ ok true)
      ↔ (12 ≡ 7 + 5))
    × ((matches (decreased_by (unsigned 5)) (unsigned 12) (some (unsigned 7)) zero ≡ ok true)
        ↔ (12 + 5 ≡ 7))
unsigned_difference_example = unsigned_difference 12 7 5 zero zero-IsEpsilon (omega arith)

signed_difference_example :
    ((matches (increased_by (signed (pos 5))) (signed (pos 2)) (some (signed (negsuc 2))) zero
        ≡ ok true)
      ↔ (pos 2 ≡ negsuc 2 +ℤ pos 5))
    × ((matches (decreased_by (signed (pos 5))) (signed (pos 2)) (some (signed (negsuc 2))) zero
          ≡ ok true)
        ↔ (pos 2 ≡ negsuc 2 -ℤ pos 5))
signed_difference_example = signed_difference (pos 2) (negsuc 2) 5 zero zero-IsEpsilon refl

span-made : aligned_scan_span 1000 8 ≡ ok 1000
unfolding aligned_scan_span
span-made = refl

region_cut_example :
    (chunks : List ScanChunk) × (cut (suc 4096) 0 8 1000 (4096 + 4096) 4096 ≡ ok chunks)
    × Cut 8 8 (4096 + 4096) 4096 chunks
region_cut_example =
    region_cut 0 8 1000 8 1000 4096 4096 (omega arith) (omega arith) (omega arith) span-made

slots_granted_example :
    ((attempts 5 fresh 3).1 ≡ min 5 3)
    × ((attempts 5 fresh 3).0.stop ≡ leb 3 5)
    × ((attempts 5 fresh 3).0.truncated ≡ leb 3 5)
slots_granted_example = slots_granted 5 3 (omega arith) (omega arith)
