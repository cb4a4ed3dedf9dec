-- ===== src/SpscQueue/Tests.antt =====
-- A queue of four slots whose indices have gone around.
use syseng.Base.{◌<◌, ◌≡◌, ◌↔◌, true, refl, arith}
use syseng.SpscQueue.{Queue, land_bits, land, mask, size, empty, full}
use syseng.SpscQueue.Occupancy.{occupancy}

abbrev gone_around : Queue
gone_around = record { head_ = 1; tail_ = 3 }

size_test : size 4 gone_around ≡ 2
unfolding size land land_bits mask
size_test = refl

occupancy_example :
    (size 4 gone_around ≡ 2)
    × (size 4 gone_around < 4)
    × ((empty gone_around ≡ true) ↔ (size 4 gone_around ≡ 0))
    × ((full 4 gone_around ≡ true) ↔ (size 4 gone_around ≡ 3))
occupancy_example = occupancy 2 gone_around (omega arith) (omega arith) (omega arith)
