-- ===== src/Sds/Tests.antt =====
-- src/sds.c and src/adlist.c: the theorems at concrete inputs.
use prez.Prelude.{◌+◌, ◌<◌, ◌≡◌, ◌⊎◌, length, ◌++◌, List, [], ◌∷◌, ℕ}
use prez.Prelude.Text.{codes}
use prez.Sds.Buffer.{Sds, sdscatlen, sds_alloc_size, preallocated, sdscatlen_lem}

abbrev greeting : Sds
greeting = record { buf = codes "hello"; avail = 1 }

sdscatlen_example :
    ((sdscatlen greeting (codes " you")).buf ≡ greeting.buf ++ codes " you")
    × ((sds_alloc_size (sdscatlen greeting (codes " you")) ≡ sds_alloc_size greeting)
        ⊎ ((greeting.avail < length (codes " you"))
            × (sds_alloc_size (sdscatlen greeting (codes " you"))
                ≡ 9 + preallocated (length greeting.buf + length (codes " you")))))
sdscatlen_example = sdscatlen_lem greeting (codes " you")

abbrev three : List ℕ
three = 4 ∷ 5 ∷ 6 ∷ []
