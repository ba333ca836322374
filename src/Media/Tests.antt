-- ===== src/Media/Tests.antt =====
-- The port pool on concrete inputs (internal/media).
use freesbc.Base.{ℕ, ◌≡◌, refl, Option, none, some, [], ◌∷◌, arith, ℕ_discrete}
use freesbc.Base.Assoc.{find, remove, put}
use freesbc.Media.Ports.{PortRange, PlanePool, reserve_next, sweep, sweep_loop, release}
use freesbc.Media.Ports.Reserve.{reserved}
use freesbc.Media.Ports.Sweep.{Refused, sweep_exhausted}
use freesbc.Media.Ports.Grant.{Granted, sweep_grants}

abbrev small : PortRange
small = record { min_port = 9; max_port = 13 }

-- A pool whose port 10 is reserved, on a host where no other port opens.
abbrev busy : PlanePool
busy = record { in_use = (10, tt) ∷ []; cursor = 12 }

abbrev shut : ℕ → Option ℕ
shut port = none

abbrev open_port : ℕ → Option ℕ
open_port port = some port

sweep_exhausted_example :
    Refused shut busy 12 × ((y : ℕ) → reserved y (sweep shut small busy).0 ≡ reserved y busy)
unfolding sweep sweep_loop reserve_next release find remove put ℕ_discrete
sweep_exhausted_example =
    sweep_exhausted shut small busy refl refl 12 refl (omega arith) (omega arith)

sweep_grants_example : Granted open_port 9 13 busy (sweep open_port small busy).0 12 12
unfolding sweep sweep_loop reserve_next release find remove put ℕ_discrete
sweep_grants_example = sweep_grants open_port small busy 12 12 refl refl
