-- ===== src/Escape/Quoted.antt =====
-- Whether a text stays between the quotes of a query that it is put into.
use os_irose_new.Common.{
  ℕ, ◌≡◌, ◌≢◌, refl, ap, ◌∙◌, Bool, true, false, List, [], ◌∷◌, ◌++◌, ◌==◌, if◌then◌else◌, arith,
}
use native.Mathlib.Decide.{ℕ_discrete}
use mathlib.Core.List.{append_assoc}
use os_irose_new.Escape.{replace_all, quote, backslash, escape_data}

-- Whether a text of MySQL stays between its quotes: no quote in it ends it, and none behind it is taken by a
-- backslash at its end. `after` says that a backslash stands before the text.
abbrev pub stays : Bool → List ℕ → Bool
stays true [] = false
stays false [] = true
stays true (c ∷ text) = stays false text
stays false (c ∷ text) =
    let taken = stays true text in
    let next = stays false text in
    if c == backslash then taken else (if c == quote then false else next)

abbrev pub IsQuoted : List ℕ → Type 0
IsQuoted text = stays false text ≡ true

-- What MySQL takes a text between quotes for. A backslash takes the character behind it, and stays only before the two
-- of a pattern.
abbrev pub literal : Bool → List ℕ → List ℕ
literal after [] = []
literal true (c ∷ text) =
    let rest = literal false text in
    if c == 37
    then backslash ∷ c ∷ rest
    else (if c == 95
        then backslash ∷ c ∷ rest
        else (if c == 48
            then 0 ∷ rest
            else (if c == 98
                then 8 ∷ rest
                else (if c == 110
                    then 10 ∷ rest
                    else (if c == 114
                        then 13 ∷ rest
                        else (if c == 116
                            then 9 ∷ rest
                            else (if c == 90 then 26 ∷ rest else c ∷ rest)))))))
literal false (c ∷ text) =
    let taken = literal true text in
    let next = literal false text in if c == backslash then taken else c ∷ next

-- What escapeData makes of one character.
abbrev escaped : ℕ → List ℕ
escaped c =
    if c == quote
    then backslash ∷ quote ∷ []
    else (if c == 34
        then backslash ∷ 34 ∷ []
        else (if c == 37
            then backslash ∷ 37 ∷ []
            else (if c == 95 then backslash ∷ 95 ∷ [] else (if c == 59 then [] else c ∷ []))))

replace_all-append :
    (xs ys : List ℕ) (from : ℕ) (to : List ℕ)
    → replace_all (xs ++ ys) from to ≡ replace_all xs from to ++ replace_all ys from to
unfolding replace_all
replace_all-append [] ys from to = refl
replace_all-append (c ∷ xs) ys from to = ground (
  arith,
  replace_all-append xs ys from to,
  append_assoc to (replace_all xs from to) (replace_all ys from to),
)

escape_data-append : (xs ys : List ℕ) → escape_data (xs ++ ys) ≡ escape_data xs ++ escape_data ys
unfolding escape_data
escape_data-append xs ys = simp (replace_all-append) refl

escape_data-one : (c : ℕ) → escape_data (c ∷ []) ≡ escaped c
unfolding escape_data replace_all
escape_data-one c = ground arith

escape_data-cons : (c : ℕ) (str : List ℕ) → escape_data (c ∷ str) ≡ escaped c ++ escape_data str
escape_data-cons c str =
    escape_data-append (c ∷ []) str ∙ ap (λ (t : List ℕ). t ++ escape_data str) (escape_data-one c)

-- No character of the text is a backslash.
abbrev pub IsPlain : List ℕ → Type 0
IsPlain [] = Unit
IsPlain (c ∷ str) = (c ≢ backslash) × IsPlain str

stays-cons :
    (c : ℕ) (text : List ℕ) → c ≢ backslash → c ≢ quote → stays false (c ∷ text) ≡ stays false text
stays-cons c text b q = ground (arith, b, q)

stays-escaped :
    (c : ℕ) (text : List ℕ) → c ≢ backslash → stays false (escaped c ++ text) ≡ stays false text
stays-escaped c text b = elim (ℕ_discrete c quote) [
  | yes q ↦ rw q refl
  | no q ↦ ground (arith, stays-cons c text b q)
]

-- A text without a backslash stays between the quotes of the query once it is escaped, whatever else it holds.
pub escape_data-IsQuoted : (str : List ℕ) → IsPlain str → IsQuoted (escape_data str)
escape_data-IsQuoted [] p = unfold escape_data replace_all in refl
escape_data-IsQuoted (c ∷ str) p =
    ap (stays false) (escape_data-cons c str)
    ∙ stays-escaped c (escape_data str) p.0
    ∙ escape_data-IsQuoted str p.1

-- A backslash and a quote, behind a text without a backslash, end the quotes of the query although they are
-- escaped: the backslash that escapeData puts before the quote is taken by the other.
pub escape_data-escapes :
    (before after : List ℕ)
    → IsPlain before
    → stays false (escape_data (before ++ backslash ∷ quote ∷ after)) ≡ false
escape_data-escapes [] after p =
    ap (stays false) (escape_data-cons backslash (quote ∷ after))
    ∙ ap (λ (t : List ℕ). stays false (backslash ∷ t)) (escape_data-cons quote after)
escape_data-escapes (c ∷ before) after p =
    ap (stays false) (escape_data-cons c (before ++ backslash ∷ quote ∷ after))
    ∙ stays-escaped c (escape_data (before ++ backslash ∷ quote ∷ after)) p.0
    ∙ escape_data-escapes before after p.1
