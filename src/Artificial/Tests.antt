-- ===== src/Artificial/Tests.antt =====
-- Artificial events for the file `b`, with sums of bytes for checksums.
use kingbus.Common.{ℕ, ◌≡◌, ◌+◌, false, List, [], ◌∷◌, arith, length}
use kingbus.Artificial.{build_fake_rotate_event}
use kingbus.Artificial.Sizes.{announced_size, build_fake_rotate_event-size}

abbrev sum : List ℕ → ℕ
sum [] = 0
sum (n ∷ ns) = n + sum ns

-- Without a checksum the header announces four bytes too many.
build_fake_rotate_event-size_example :
    announced_size (build_fake_rotate_event sum 7 (98 ∷ []) false)
    ≡ length (build_fake_rotate_event sum 7 (98 ∷ []) false) + 4
build_fake_rotate_event-size_example =
    build_fake_rotate_event-size sum 7 (98 ∷ []) false (omega arith)
