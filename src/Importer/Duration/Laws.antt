-- ===== src/Importer/Duration/Laws.antt =====
-- A deadline that `kdef import` writes, read by the generator.
use kdef.Base.{
  ℕ, ◌*◌, ◌/◌, ◌%◌, ◌<◌, [], ◌∷◌, ◌++◌, Option, none, some, ltb, nat_eq, if◌then◌else◌, ◌≡◌, refl,
  ◌∙◌, arith, Bool-cases, inl, inr,
}
use kdef.Base.Format.{itoa, cutoff}
use kdef.Base.Int.{ℤ, pos}
use kdef.Generator.CronJobs.{starting_deadline}
use kdef.Generator.CronJobs.Laws.{unit_seconds, starting_deadline_bounds}
use kdef.Importer.Duration.{format_duration}

abbrev pub set_deadline : ℕ → Option ℤ
set_deadline n = if ltb 0 n then some (pos n) else none

exact_unit :
    (n q u k : ℕ)
    → q * k ≡ n
    → q < cutoff
    → n < cutoff
    → unit_seconds u ≡ some k
    → starting_deadline (itoa q ++ u ∷ []) ≡ set_deadline n
exact_unit n q u k e small fits unit =
    starting_deadline_bounds q u k small unit (omega (arith, e, fits)) ∙ rw e (ground (arith, fits))

-- The deadline that is written for a number of seconds that an int64 holds is read as this number,
-- and as no deadline where it is 0.
pub starting_deadline-format_duration :
    (n : ℕ) → n < cutoff → starting_deadline (format_duration (pos n)) ≡ set_deadline n
unfolding format_duration unit_seconds
starting_deadline-format_duration n h = elim (Bool-cases (nat_eq (n % 3600) 0)) [
  | inl hours ↦
      rw hours (exact_unit n (n / 3600) 104 3600 (ground (arith, hours)) (omega (arith, h)) h refl)
  | inr no_hours ↦ rw no_hours (elim (Bool-cases (nat_eq (n % 60) 0)) [
    | inl minutes ↦
        rw minutes
          (exact_unit n (n / 60) 109 60 (ground (arith, minutes)) (omega (arith, h)) h refl)
    | inr no_minutes ↦ rw no_minutes (exact_unit n n 115 1 (omega arith) h h refl)
  ])
]
