-- ===== src/Memory/Tests.antt =====
-- The budget of a host with 8 GB.
use opencti_middleware.Base.{◌*◌, ◌≡◌, refl, none, some}
use opencti_middleware.Settings.{Settings, defaults}
use opencti_middleware.Memory.{Fraction, mb, detect, resolve_budgets}

abbrev half : Fraction
half = record { numerator = 1; denominator = 2 }

abbrev settings : Settings
settings = defaults "https://opencti.example" "token" "key"

program : Unit {0}
unfolding detect resolve_budgets
program = tt

cgroup_binds :
    (resolve_budgets (some (2048 * mb)) (8192 * mb) half settings).budget.source ≡ "cgroup"
unfolding program
cgroup_binds = refl

usable_half : (resolve_budgets none (8192 * mb) half settings).budget.usable ≡ 3840 * mb
unfolding program
usable_half = refl
