-- ===== src/Route/Masks.antt =====
-- Netmasks and their lengths.
use protura.Base.{ℕ, ◌≤◌, ◌≡◌, ◌==◌, refl, true, Bool, arith}
use protura.Base.Bits.{every_under, every_under_lem}
use protura.Route.{find_first_set, netmask_count, netmask_create}

abbrev counts_back : ℕ → Bool
counts_back n = netmask_count (netmask_create n) == n

all_count_back : every_under counts_back 33 ≡ true
unfolding every_under netmask_count netmask_create find_first_set
all_count_back = refl

-- The netmask of each length has that length.
pub netmask_count-netmask_create : (n : ℕ) → n ≤ 32 → netmask_count (netmask_create n) ≡ n
netmask_count-netmask_create n h =
    ground (arith, every_under_lem counts_back 33 n (omega arith) all_count_back)
