-- ===== src/Generator/CronJobs/Laws.antt =====
-- The deadline of a CronJob: the seconds that it stands for, and where `int64` overflows.
use kdef.Base.{
  ℕ, ◌*◌, ◌%◌, ◌<◌, [], ◌∷◌, ◌++◌, false, Option, none, some, ltb, nat_eq, if◌then◌else◌, ◌≡◌, refl,
  ap, ◌∙◌, arith, Bool-cases, inl, inr, ◌⊎◌, ◌&&◌,
}
use kdef.Base.Format.{
  itoa, is_empty-itoa, is_empty-append, is_space, int64, times, cutoff, parse_int-itoa,
  trim_space-itoa,
}
use kdef.Base.Int.{pos, ltb_ℤ}
use kdef.Base.Text.{Text}
use kdef.Generator.CronJobs.{split_last, seconds_of, parse_duration, starting_deadline}

-- The seconds of a unit: `s`, `m` and `h`.
unfoldable pub unit_seconds : ℕ → Option ℕ
unit_seconds u =
    if nat_eq u 115
    then some 1
    else if nat_eq u 109
    then some 60
    else if nat_eq u 104
    then some 3600
    else none

split_last-append : (s : Text) (u : ℕ) → split_last (s ++ u ∷ []) ≡ some (s, u)
unfolding split_last
split_last-append [] u = refl
split_last-append (c ∷ s) u = rw (split_last-append s u) refl

unit_no_space : (u k : ℕ) → unit_seconds u ≡ some k → is_space u ≡ false
unfolding unit_seconds is_space
unit_no_space u k h = ground (arith, h)

parse_duration-itoa :
    (n u k : ℕ)
    → n < cutoff
    → unit_seconds u ≡ some k
    → parse_duration (itoa n ++ u ∷ []) ≡ seconds_of (pos n) u
unfolding parse_duration
parse_duration-itoa n u k h e =
    rw
      (
        trim_space-itoa n u (unit_no_space u k e),
        split_last-append (itoa n) u,
        is_empty-itoa n,
        parse_int-itoa n h,
      )
      refl

mod_small : (a : ℕ) → a < 2 * cutoff → a % (2 * cutoff) ≡ a
mod_small a h = omega (arith, h)

times_small : (n k : ℕ) → n * k < 2 * cutoff → times (pos n) k ≡ int64 (n * k)
unfolding times
times_small n k h = ap int64 (mod_small (n * k) h)

int64_small : (n : ℕ) → n < cutoff → pos n ≡ int64 n
unfolding int64
int64_small n h = ground (arith, h)

unit_cases :
    (u k : ℕ)
    → unit_seconds u ≡ some k
    → (u ≡ 115) × (k ≡ 1) ⊎ ((u ≡ 109) × (k ≡ 60) ⊎ (u ≡ 104) × (k ≡ 3600))
unfolding unit_seconds
unit_cases u k e = ground (arith, e)

seconds_of_lem :
    (n u k : ℕ)
    → n < cutoff
    → unit_seconds u ≡ some k
    → n * k < 2 * cutoff
    → seconds_of (pos n) u ≡ int64 (n * k)
unfolding seconds_of
seconds_of_lem n u k h e b = elim (unit_cases u k e) [
  | inl (unit, one) ↦ rw (unit, one) (int64_small n h ∙ ap int64 (omega arith))
  | inr (inl (unit, sixty)) ↦
      rw (unit, sixty) (times_small n 60 (omega (arith, b, ap (λ m. n * m) sixty)))
  | inr (inr (unit, hour)) ↦
      rw (unit, hour) (times_small n 3600 (omega (arith, b, ap (λ m. n * m) hour)))
]

positive_int64 :
    (a : ℕ)
    → (if ltb_ℤ (pos 0) (int64 a) then some (int64 a) else none)
      ≡ (if ltb 0 a && ltb a cutoff then some (pos a) else none)
unfolding int64
positive_int64 a = elim (Bool-cases (ltb a cutoff)) [
  | inl small ↦ rw small (ground arith)
  | inr large ↦ rw large (ground arith)
]

-- A deadline of `n` seconds, minutes or hours (`k` seconds each) whose number of seconds fits in 64 bits
-- without a sign: where it fits an `int64` too, and is not 0, it is the starting deadline; where it
-- does not, no starting deadline is set.
pub starting_deadline_bounds :
    (n u k : ℕ)
    → n < cutoff
    → unit_seconds u ≡ some k
    → n * k < 2 * cutoff
    → starting_deadline (itoa n ++ u ∷ [])
      ≡ (if ltb 0 (n * k) && ltb (n * k) cutoff then some (pos (n * k)) else none)
unfolding starting_deadline
starting_deadline_bounds n u k h e b =
    rw (is_empty-append (itoa n) u, parse_duration-itoa n u k h e, seconds_of_lem n u k h e b)
      (positive_int64 (n * k))
