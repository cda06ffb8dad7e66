-- ===== src/Env/Digits.antt =====
-- The number that a text of digits stands for.
use Prim.Native.Nat.{◌%◌}
use Prim.Native.Char.{code}
use cc_005_offline_inspectio.Base.{
  ℕ, suc, String, Bool, true, false, ◌||◌, ◌+◌, ◌*◌, ◌-◌, ◌^◌, ◌≡◌, refl, Option, none, some, inl,
  inr, ltb, str_eq, arith, Bool-cases, if◌then◌else◌,
}
use native.Mathlib.Nat.{pow-suc}
use cc_005_offline_inspectio.Env.{read_int, env_int, int64_values}

-- each character is a digit
pub all_digits : String → Bool
all_digits String.[] = true
all_digits (String.◌∷◌ c s) =
    let rest = all_digits s in if ltb (code c) 48 || ltb 57 (code c) then false else rest

abbrev digits : String → ℕ
digits String.[] = 0
digits (String.◌∷◌ c s) = suc (digits s)

-- the sum of the digits by their places
abbrev pub value : String → ℕ
value String.[] = 0
value (String.◌∷◌ c s) = (code c - 48) * 10 ^ digits s + value s

step-mod : (n d : ℕ) → (n % int64_values * 10 + d) % int64_values ≡ (n * 10 + d) % int64_values
step-mod n d = omega arith

place : (n d p v : ℕ) → (n * 10 + d) * p + v ≡ n * (p * 10) + (d * p + v)
place n d p v = grind arith

-- what a text reads as after the digits of `n`
abbrev reading : ℕ → String → Option ℕ
reading n s = if all_digits s then some ((n * 10 ^ digits s + value s) % int64_values) else none

read_int-reading : (n : ℕ) (s : String) → read_int (n % int64_values) s ≡ reading n s
unfolding read_int all_digits
read_int-reading n String.[] =
    let same : n % int64_values ≡ (n * 1 + 0) % int64_values = omega arith in rw same refl
read_int-reading n (String.◌∷◌ c s) = elim (Bool-cases (ltb (code c) 48 || ltb 57 (code c))) [
  | inl e ↦ rw e refl
  | inr e ↦
      rw
        (
          e,
          step-mod n (code c - 48),
          read_int-reading (n * 10 + (code c - 48)) s,
          place n (code c - 48) (10 ^ digits s) (value s),
          pow-suc 10 (digits s),
        )
        refl
]

-- A value of the environment that is not empty and has only digits is read as the number that they
-- stand for, modulo the number of values of an int64; any other value gives the default.
pub env_int_lem :
    (v : String) (def : ℕ)
    → env_int v def
      ≡ (if str_eq v "" then def else if all_digits v then value v % int64_values else def)
unfolding env_int
env_int_lem v def =
    let zeros : (0 * 10 ^ digits v + value v) % int64_values ≡ value v % int64_values =
      omega arith in
    elim (Bool-cases (all_digits v)) [
      | inl e ↦ rw (read_int-reading 0 v, e, zeros) refl
      | inr e ↦ rw (read_int-reading 0 v, e) (ground arith)
    ]
