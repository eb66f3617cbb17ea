-- ===== src/Sds/SplitArgs/Tests.antt =====
-- src/sds.c: runs of sdssplitargs.
use prez.Prelude.{arith, ◌≡◌, refl, some, none, [], ◌∷◌}
use prez.Prelude.Text.{codes}
use prez.Sds.Buffer.{sdsnewlen}
use prez.Sds.SplitArgs.{sdssplitargs}
use prez.Sds.SplitArgs.Repr.{sdscatrepr, sdssplitargs-sdscatrepr}

three :
    sdssplitargs (codes "set  key \"a\\x41\\n b\"")
    ≡ some (codes "set" ∷ codes "key" ∷ (b'a' ∷ b'A' ∷ 10 ∷ codes " b") ∷ [])
unfolding sdssplitargs
three = refl

unbalanced : sdssplitargs (codes "get \"a\"b") ≡ none
unfolding sdssplitargs
unbalanced = refl

sdssplitargs-sdscatrepr_example :
    sdssplitargs (sdscatrepr (sdsnewlen []) (b'a' ∷ b'"' ∷ 200 ∷ 10 ∷ [])).buf
    ≡ some ((b'a' ∷ b'"' ∷ 200 ∷ 10 ∷ []) ∷ [])
sdssplitargs-sdscatrepr_example =
    sdssplitargs-sdscatrepr (b'a' ∷ b'"' ∷ 200 ∷ 10 ∷ []) (ground arith)
