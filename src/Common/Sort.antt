-- ===== src/Common/Sort.antt =====
-- std::sort of strings. Equal strings are alike, so the result is one list whatever the algorithm.
use mathlib.Core.List.{List, [], ◌∷◌}
use vost.Common.Tests.{if◌then◌else◌}
use vost.Common.Text.{Str}
use vost.Common.Maps.{str_lt}

unfoldable pub insert_string : Str → List Str → List Str
unfolding str_lt
insert_string s [] = s ∷ []
insert_string s (t ∷ ts) = if str_lt t s then t ∷ insert_string s ts else s ∷ t ∷ ts

unfoldable pub sort_strings : List Str → List Str
unfolding insert_string
sort_strings [] = []
sort_strings (s ∷ ss) = insert_string s (sort_strings ss)
