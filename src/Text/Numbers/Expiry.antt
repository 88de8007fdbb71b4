-- ===== src/Text/Numbers/Expiry.antt =====
-- memcached/memcached.c: the expiry times that the commands give.
use kvsev.Prelude.{ℕ, ◌^◌, ◌<◌, ◌≡◌, true, arith}
use kvsev.Text.Numbers.{realtime_maxdelta, is_negative, exptime_to_positive, realtime}

-- Only an expiry time of 0 means never. Every other one stands for a time after 0; a negative one, in a
-- server that started after the first 30 days of 1970 and has run, stands for the time 1, which is past.
pub realtime_lem :
    (started now w : ℕ)
    → realtime_maxdelta < started
    → 0 < now
    → now < 2 ^ 31
    → started < 2 ^ 32
    → w < 2 ^ 32
    → ((realtime started now (exptime_to_positive w) ≡ 0) → w ≡ 0)
      × ((w ≡ 0) → realtime started now (exptime_to_positive w) ≡ 0)
      × (is_negative w ≡ true → realtime started now (exptime_to_positive w) ≡ 1)
unfolding realtime exptime_to_positive
realtime_lem started now w late running small young fits = (
  λ h. ground (arith, h, late, running, small, young, fits),
  λ h. ground (arith, h),
  λ h. ground (arith, h, late, running, small, young, fits),
)
