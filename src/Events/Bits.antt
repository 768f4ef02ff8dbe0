-- ===== src/Events/Bits.antt =====
-- The epoll flags of koro/channel.cpp, as bits of a 32-bit mask. A mask stands first in `bit_and` and
-- `bit_or`, which compute on it; both are symmetric.
use Prim.Native.Nat.{bit_and, bit_or, bit_and-bitwise, bit_or-bitwise}
use koro.Prelude.{ℕ, ◌+◌, ◌*◌, ◌-◌, ◌^◌, ◌/◌, ◌%◌, ◌≡◌, Bool, true, ◌==◌, not, arith, ◌||◌}

abbrev pub epollin : ℕ
epollin = 0x001

abbrev pub epollout : ℕ
epollout = 0x004

abbrev pub epollerr : ℕ
epollerr = 0x008

abbrev pub epollhup : ℕ
epollhup = 0x010

abbrev pub epollet : ℕ
epollet = 2 ^ 31

-- `if (mask & flags)`
unfoldable pub has : ℕ → ℕ → Bool
has mask flags = not (bit_and mask flags == 0)

-- Bit `k` of a number.
abbrev pub bit : ℕ → ℕ → Bool
bit k n = n / 2 ^ k % 2 == 1

bit_and_in : (n : ℕ) → bit_and epollin n ≡ n % 2
bit_and_in n = omega (arith, bit_and-bitwise epollin n)

bit_and_out : (n : ℕ) → bit_and epollout n ≡ n / 4 % 2 * 4
bit_and_out n = omega (arith, bit_and-bitwise epollout n)

bit_and_err : (n : ℕ) → bit_and epollerr n ≡ n / 8 % 2 * 8
bit_and_err n = omega (arith, bit_and-bitwise epollerr n)

bit_and_err_hup : (n : ℕ) → bit_and 24 n ≡ n / 8 % 4 * 8
bit_and_err_hup n = omega (arith, bit_and-bitwise 24 n)

pub or_in : (n : ℕ) → bit_or epollin n ≡ n - n % 2 + 1
or_in n = omega (arith, bit_or-bitwise epollin n)

pub or_out : (n : ℕ) → bit_or epollout n ≡ n - n / 4 % 2 * 4 + 4
or_out n = omega (arith, bit_or-bitwise epollout n)

pub or_in_out : (n : ℕ) → bit_or 5 n ≡ n - n % 2 + 1 - n / 4 % 2 * 4 + 4
or_in_out n = omega (arith, bit_or-bitwise 5 n)

pub has_in : (n : ℕ) → has epollin n ≡ bit 0 n
unfolding has
has_in n = ground (arith, bit_and_in n)

pub has_out : (n : ℕ) → has epollout n ≡ bit 2 n
unfolding has
has_out n = ground (arith, bit_and_out n)

pub has_err : (n : ℕ) → has epollerr n ≡ bit 3 n
unfolding has
has_err n = ground (arith, bit_and_err n)

pub has_err_or_hup : (n : ℕ) → has 24 n ≡ (bit 3 n || bit 4 n)
unfolding has
has_err_or_hup n = ground (arith, bit_and_err_hup n)

-- Both flags set, the others stay.
pub bit_in_widened : (n : ℕ) → bit 0 (bit_or 5 n) ≡ true
bit_in_widened n = ground (arith, or_in_out n)

pub bit_out_widened : (n : ℕ) → bit 2 (bit_or 5 n) ≡ true
bit_out_widened n = ground (arith, or_in_out n)

pub bit_err_widened : (n : ℕ) → bit 3 (bit_or 5 n) ≡ bit 3 n
bit_err_widened n = ground (arith, or_in_out n)

-- The other flags stay under `|` and under `& ~`.
pub set_in : (n : ℕ) → bit 0 (bit_or epollin n) ≡ true
set_in n = ground (arith, or_in n)

pub set_out : (n : ℕ) → bit 2 (bit_or epollout n) ≡ true
set_out n = ground (arith, or_out n)

et_keeps_in : (n : ℕ) → bit_or epollet n % 2 ≡ n % 2
et_keeps_in n = omega (arith, bit_or-bitwise epollet n)

et_keeps_out : (n : ℕ) → bit_or epollet n / 4 % 2 ≡ n / 4 % 2
et_keeps_out n = omega (arith, bit_or-bitwise epollet n)

pub bit_in_et : (n : ℕ) → bit 0 (bit_or epollet n) ≡ bit 0 n
bit_in_et n = ground (arith, et_keeps_in n)

pub bit_out_et : (n : ℕ) → bit 2 (bit_or epollet n) ≡ bit 2 n
bit_out_et n = ground (arith, et_keeps_out n)

pub clear_in : (n : ℕ) → bit_and (2 ^ 32 - 1 - epollin) n % 2 ≡ 0
clear_in n = omega (arith, bit_and-bitwise (2 ^ 32 - 1 - epollin) n)

pub clear_out : (n : ℕ) → bit_and (2 ^ 32 - 1 - epollout) n / 4 % 2 ≡ 0
clear_out n = omega (arith, bit_and-bitwise (2 ^ 32 - 1 - epollout) n)
