-- ===== src/Escape.antt =====
-- Core::escapeData and its replaceAll (src/core/src/connection.cpp), which the servers apply to a client's texts
-- before they put them between quotes into a query.
pub mod Quoted
use os_irose_new.Common.{ℕ, List, [], ◌∷◌, ◌++◌, ◌==◌, if◌then◌else◌}

-- replaceAll(str, from, to), where `from` is one character, as in every call: the search goes on behind `to`.
unfoldable pub replace_all : List ℕ → ℕ → List ℕ → List ℕ
replace_all [] from to = []
replace_all (c ∷ str) from to =
    let rest = replace_all str from to in if c == from then to ++ rest else c ∷ rest

abbrev pub quote : ℕ
quote = 39

abbrev pub backslash : ℕ
backslash = 92

unfoldable pub escape_data : List ℕ → List ℕ
escape_data str =
    let quotes = replace_all str quote (backslash ∷ quote ∷ []) in
    let double_quotes = replace_all quotes 34 (backslash ∷ 34 ∷ []) in
    let percents = replace_all double_quotes 37 (backslash ∷ 37 ∷ []) in
    let underscores = replace_all percents 95 (backslash ∷ 95 ∷ []) in replace_all underscores 59 []
