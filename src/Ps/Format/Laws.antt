-- ===== src/Ps/Format/Laws.antt =====
-- The elapsed time of src/ps.c.
use util_ironclad.Base.{ℕ, ◌+◌, ◌*◌, ◌<◌, ◌≡◌, arith}
use util_ironclad.Ps.Format.{clock}

-- Hours, minutes and seconds add up to the elapsed time, with minutes and seconds below 60.
pub clock_exact :
    (elapsed : ℕ)
    → ((clock elapsed).hours * 3600 + (clock elapsed).minutes * 60 + (clock elapsed).seconds
        ≡ elapsed)
      × ((clock elapsed).minutes < 60)
      × ((clock elapsed).seconds < 60)
unfolding clock
clock_exact elapsed = ground arith
