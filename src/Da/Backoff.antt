-- ===== src/Da/Backoff.antt =====
-- internal/opcda/reconnect.go: reconnectDelay. A duration is a count of nanoseconds.
use opcda_access_adapter.Prelude.{ℕ, zero, suc, ◌+◌, ◌-◌, ◌*◌, ◌/◌, ◌%◌, ltb, leb, if◌then◌else◌}

-- The loop, by the rounds that are left; `base < maximum` is tested before each.
unfoldable pub double_base : ℕ → ℕ → ℕ → ℕ
double_base zero maximum base = base
double_base (suc rounds) maximum base =
    let doubled =
      double_base rounds maximum (if ltb (maximum / 2) base then maximum else base * 2) in
    if ltb base maximum then doubled else base

abbrev pub capped : ℕ → ℕ → ℕ
capped maximum base = if ltb maximum base then maximum else base

-- The last two tests of the function.
abbrev pub bounded_delay : ℕ → ℕ → ℕ → ℕ
bounded_delay initial maximum delay = capped maximum (if leb delay 0 then initial else delay)

abbrev pub permille_of : ℕ → ℕ
permille_of jitter = 800 + jitter % 401

-- The delay from the capped base. Go subtracts the extra from the maximum as an int64, where it is
-- added to the other side here.
unfoldable pub jittered : ℕ → ℕ → ℕ → ℕ → ℕ
jittered initial maximum permille base =
    if leb permille 1000
    then bounded_delay initial maximum (base / 1000 * permille)
    else if leb maximum (base + base / 1000 * (permille - 1000))
    then maximum
    else bounded_delay initial maximum (base + base / 1000 * (permille - 1000))

unfoldable pub reconnect_delay : ℕ → ℕ → ℕ → ℕ → ℕ
unfolding double_base jittered
reconnect_delay attempt initial maximum jitter =
    jittered initial maximum (permille_of jitter)
      (capped maximum (double_base attempt maximum initial))
