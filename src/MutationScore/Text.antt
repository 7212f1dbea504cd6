-- ===== src/MutationScore/Text.antt =====
-- The text operations of soundgate/scripts/mutation_score.py: `str.count` and `str.replace`, for a text
-- that is not empty.
use Prim.Native.String.{[] as nil, ◌∷◌ as cons}
use soundgate_paper.Prelude.{
  ℕ, zero, suc, ◌+◌, ◌-◌, String, ◌<>◌, Bool, true, false, ◌==◌, ◌&&◌, if◌then◌else◌, string_eq,
}

unfoldable pub size : String → ℕ
size nil = 0
size (cons c s) = 1 + size s

unfoldable pub starts_with : String → String → Bool
starts_with nil s = true
starts_with (cons c old) nil = false
starts_with (cons c old) (cons d s) = cons c nil == cons d nil && starts_with old s

-- Both skip the first characters that belong to an occurrence already found.
unfoldable pub count_from : ℕ → String → String → ℕ
unfolding starts_with size
count_from skip old nil = 0
count_from (suc skip) old (cons c s) = count_from skip old s
count_from zero old (cons c s) =
    let here = starts_with old (cons c s) in
    let rest = count_from (if here then size old - 1 else 0) old s in
    if here then 1 + rest else rest

unfoldable pub count : String → String → ℕ
unfolding count_from
count text old = count_from 0 old text

unfoldable pub replace_from : ℕ → String → String → String → String
unfolding starts_with size
replace_from skip old new nil = nil
replace_from (suc skip) old new (cons c s) = replace_from skip old new s
replace_from zero old new (cons c s) =
    let here = starts_with old (cons c s) in
    let rest = replace_from (if here then size old - 1 else 0) old new s in
    if here then new <> rest else cons c rest

unfoldable pub replace : String → String → String → String
unfolding replace_from
replace text old new = replace_from 0 old new text
