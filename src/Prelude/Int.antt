-- ===== src/Prelude/Int.antt =====
-- The integers of the program: a JavaScript `bigint` and a value of the class BN are both a signed
-- integer of any size. Division truncates towards zero and throws at a zero divisor.
use Prim.Native.Nat.{ℕ, zero, suc, ◌+◌, ◌-◌, ◌*◌, ◌/◌, ◌%◌, ◌^◌, ◌≤◌, ◌<◌}
use mathlib.Core.Path.{◌≡◌, refl}
use mathlib.Core.Bool.{Bool, true, false, ◌&&◌}
use native.Mathlib.Omega.{arith}
use mercurial_dynamic_amm_sd.Prelude.Tests.{ltb, leb, ◌==◌, if◌then◌else◌}
use mercurial_dynamic_amm_sd.Prelude.Results.{Result, ok, err, division_by_zero, unsafe_number}

-- `negsuc n` is -(n + 1).
pub data ℤ : Type 0 where
  pos : ℕ → ℤ
  negsuc : ℕ → ℤ

-- a - b, as an integer.
abbrev pub sub_ℕ : ℕ → ℕ → ℤ
sub_ℕ a b = if leb b a then pos (a - b) else negsuc (b - a - 1)

abbrev pub neg_ℤ : ℤ → ℤ
neg_ℤ (pos zero) = pos zero
neg_ℤ (pos (suc n)) = negsuc n
neg_ℤ (negsuc n) = pos (suc n)

infixl 65 ◌+ℤ◌ ◌-ℤ◌
infixl 70 ◌*ℤ◌
infix 50 ◌==ℤ◌
abbrev pub ◌+ℤ◌ : ℤ → ℤ → ℤ
pos m +ℤ pos n = pos (m + n)
pos m +ℤ negsuc n = sub_ℕ m (suc n)
negsuc m +ℤ pos n = sub_ℕ n (suc m)
negsuc m +ℤ negsuc n = negsuc (suc (m + n))

abbrev pub ◌-ℤ◌ : ℤ → ℤ → ℤ
pos m -ℤ pos n = sub_ℕ m n
pos m -ℤ negsuc n = pos (m + suc n)
negsuc m -ℤ pos n = negsuc (m + n)
negsuc m -ℤ negsuc n = sub_ℕ n m

abbrev pub ◌*ℤ◌ : ℤ → ℤ → ℤ
pos m *ℤ pos n = pos (m * n)
pos m *ℤ negsuc n = neg_ℤ (pos (m * suc n))
negsuc m *ℤ pos n = neg_ℤ (pos (suc m * n))
negsuc m *ℤ negsuc n = pos (suc m * suc n)

-- `a.lt(b)`, which is `b.gt(a)`.
abbrev pub ltb_ℤ : ℤ → ℤ → Bool
ltb_ℤ (pos m) (pos n) = ltb m n
ltb_ℤ (pos m) (negsuc n) = false
ltb_ℤ (negsuc m) (pos n) = true
ltb_ℤ (negsuc m) (negsuc n) = ltb n m

-- `a.eq(b)`.
abbrev pub ◌==ℤ◌ : ℤ → ℤ → Bool
pos m ==ℤ pos n = m == n
pos m ==ℤ negsuc n = false
negsuc m ==ℤ pos n = false
negsuc m ==ℤ negsuc n = m == n

abbrev pub is_zero : ℤ → Bool
is_zero (pos zero) = true
is_zero (pos (suc n)) = false
is_zero (negsuc n) = false

-- `a.div(b)` and `a / b`.
abbrev pub tdiv : ℤ → ℤ → Result ℤ
tdiv a (pos zero) = err division_by_zero
tdiv (pos m) (pos (suc n)) = ok (pos (m / suc n))
tdiv (negsuc m) (pos (suc n)) = ok (neg_ℤ (pos (suc m / suc n)))
tdiv (pos m) (negsuc n) = ok (neg_ℤ (pos (m / suc n)))
tdiv (negsuc m) (negsuc n) = ok (pos (suc m / suc n))

-- `a.mod(b)`, with the sign of the dividend.
abbrev pub tmod : ℤ → ℤ → Result ℤ
tmod a (pos zero) = err division_by_zero
tmod (pos m) (pos (suc n)) = ok (pos (m % suc n))
tmod (negsuc m) (pos (suc n)) = ok (neg_ℤ (pos (suc m % suc n)))
tmod (pos m) (negsuc n) = ok (pos (m % suc n))
tmod (negsuc m) (negsuc n) = ok (neg_ℤ (pos (suc m % suc n)))

pub tdiv-pos : (m n : ℕ) → 0 < n → tdiv (pos m) (pos n) ≡ ok (pos (m / n))
tdiv-pos m zero h = absurd (omega arith)
tdiv-pos m (suc n) h = refl

pub tmod-pos : (m n : ℕ) → 0 < n → tmod (pos m) (pos n) ≡ ok (pos (m % n))
tmod-pos m zero h = absurd (omega arith)
tmod-pos m (suc n) h = refl

pub sub_ℕ-of_le : (m n : ℕ) → n ≤ m → sub_ℕ m n ≡ pos (m - n)
sub_ℕ-of_le m n h = ground arith

pub sub_ℕ-of_lt : (m n : ℕ) → m < n → sub_ℕ m n ≡ negsuc (n - m - 1)
sub_ℕ-of_lt m n h = ground arith

pub pos_injective : {m n : ℕ} → pos m ≡ pos n → m ≡ n
pos_injective e = cc

pub div_pos : (m n : ℕ) → 0 < n → n ≤ m → 0 < m / n
div_pos m n h le = grind arith

pub div_zero : (m n : ℕ) → m < n → m / n ≡ 0
div_zero m n h = grind arith

pub is_zero-pos : (n : ℕ) → 0 < n → is_zero (pos n) ≡ false
is_zero-pos zero h = absurd (omega arith)
is_zero-pos (suc n) h = refl

-- `a.toNumber()`, which throws outside the integers that a JavaScript number holds exactly.
abbrev pub to_number : ℤ → Result ℤ
to_number a =
    if ltb_ℤ a (pos (2 ^ 53)) && ltb_ℤ (neg_ℤ (pos (2 ^ 53))) a then ok a else err unsafe_number

pub tdiv-neg_ℤ : (m n : ℕ) → 0 < n → tdiv (neg_ℤ (pos m)) (pos n) ≡ ok (neg_ℤ (pos (m / n)))
tdiv-neg_ℤ m zero h = absurd (omega arith)
tdiv-neg_ℤ zero (suc n) h = let e : 0 / suc n ≡ 0 = omega arith in rw e
tdiv-neg_ℤ (suc m) (suc n) h = refl

pub neg_ℤ-lt : (m n : ℕ) → 0 < n → ltb_ℤ (neg_ℤ (pos m)) (pos n) ≡ true
neg_ℤ-lt zero n h = ground arith
neg_ℤ-lt (suc m) n h = refl

-- Division of numbers that are not negative, for `grind`.
pub ruleset quotients = (arith, tdiv-pos, tmod-pos, div_pos, div_zero)
