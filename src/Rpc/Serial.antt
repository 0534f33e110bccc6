-- ===== src/Rpc/Serial.antt =====
-- rpc.go: the serial numbers of requests.
use go_libvirt.Base.{ℕ, zero, suc, ◌+◌, ◌%◌, ◌^◌, ◌<◌, ◌≡◌, ◌≢◌, ap, arith}
use go_libvirt.Base.Int.{ℤ, IsInt32, uint32, int32, uint32-lt, int32-IsInt32}

-- `serial`: `atomic.AddInt32(&l.s, 1)`, the counter's new value, which is also the result. It wraps.
unfoldable pub serial : ℤ → ℤ
serial s = int32 (uint32 s + 1)

-- The result of the call number `n` from here, counted from 1; the counter itself for 0.
abbrev pub nth_serial : ℕ → ℤ → ℤ
nth_serial zero s = s
nth_serial (suc n) s = serial (nth_serial n s)

uint32-serial : (s : ℤ) → uint32 (serial s) ≡ (uint32 s + 1) % 2 ^ 32
unfolding serial
uint32-serial s = ground (arith, uint32-lt s)

uint32-nth_serial : (n : ℕ) (s : ℤ) → uint32 (nth_serial n s) ≡ (uint32 s + n) % 2 ^ 32
uint32-nth_serial zero s = omega (arith, uint32-lt s)
uint32-nth_serial (suc n) s = omega (arith, uint32-serial (nth_serial n s), uint32-nth_serial n s)

-- Any two calls of `serial` with fewer than 2 ^ 32 calls from one to the other return different
-- numbers, also where the counter wraps, and what each returns is an `int32`.
pub serials_differ :
    (s : ℤ) (m n : ℕ)
    → m < n
    → n < m + 2 ^ 32
    → (nth_serial m s ≢ nth_serial n s) × IsInt32 (nth_serial n s)
serials_differ s m n before close = (differ, in_range n before)
  where
    differ : nth_serial m s ≢ nth_serial n s
    differ same =
        omega (arith, ap uint32 same, uint32-nth_serial m s, uint32-nth_serial n s, uint32-lt s)

    in_range : (k : ℕ) → m < k → IsInt32 (nth_serial k s)
    in_range zero h = absurd (omega arith)
    in_range (suc k) h = unfold serial in int32-IsInt32 (uint32 (nth_serial k s) + 1)
