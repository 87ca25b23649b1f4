-- ===== src/Tests/BlockProofs.antt =====
-- The theorems on splitting and the checksum at concrete inputs.
use xdebug.Prelude.{◌-◌, ◌^◌, ◌≡◌, refl, some, codes, equal, arith}
use xdebug.Prelude.Int.{pos, negsuc, ◌-ℤ◌}
use xdebug.Arg.{memnstr, pieces, explode, join}
use xdebug.Arg.RoundTrip.{join-explode}
use xdebug.Crc32.{crc32, crc32_from, crc32_step}
use xdebug.Crc32.Division.{crc32_divided, crc32-crc32_divided}

join-explode_example :
    join (codes ", ") (explode (codes ", ") (codes "a, b, c") (negsuc 0)) (pos 0) (pos 9)
    ≡ some (codes "a, b, c")
join-explode_example =
    join-explode (codes ", ") (codes "a, b, c") (negsuc 0) 9 (λ e. omega arith)
      (unfold explode pieces memnstr ◌-ℤ◌ equal in omega arith)

crc32-crc32_divided_example :
    crc32 (codes "123456789") ≡ 2 ^ 32 - 1 - crc32_divided (2 ^ 32 - 1) (codes "123456789")
crc32-crc32_divided_example = crc32-crc32_divided (codes "123456789")

-- the check value of this checksum
crc32_check : crc32 (codes "123456789") ≡ 0xcbf4_3926
unfolding crc32 crc32_from crc32_step
crc32_check = refl
