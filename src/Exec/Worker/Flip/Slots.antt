-- ===== src/Exec/Worker/Flip/Slots.antt =====
-- What a flip and the worker that watches the held position do to its slot.
use pcr_momentum.Base.Int.{ℤ}
use pcr_momentum.Float.{Float}
use pcr_momentum.Exec.Allocator.{count_of}
use pcr_momentum.Exec.Worker.Signals.{Desk}

module _ {F : Type 0} ⦃fl : Float F⦄ where
  -- How many positions the allocator counts.
  abbrev pub counted : Desk F → ℤ
  counted d = count_of "total" d.allocator.open_count
