-- ===== src/Text.antt =====
-- src/internal.hh: the text helpers of the collectors. A `std::string` is its list of bytes.
pub mod Trim
pub mod Find
pub mod Lines
pub mod Words
pub mod Unquote
pub mod Path
pub mod Pieces
use archspec.Base.{
  ℕ, suc, ◌+◌, ◌-◌, Bool, true, false, not, ◌&&◌, ◌||◌, List, [], ◌∷◌, ◌++◌, Option, none, some,
  Bytes, codes, ltb, leb, ◌==◌, if◌then◌else◌, take, drop, is_empty, eq_bytes,
}

-- `std::isspace` in the C locale
abbrev pub is_space : ℕ → Bool
is_space c = c == b' ' || (leb 9 c && leb c 13)

-- `std::tolower` in the C locale
unfoldable pub to_lower : ℕ → ℕ
to_lower c = if leb b'A' c && leb c b'Z' then c + 32 else c

-- `std::transform(…, tolower)`
unfoldable pub lower_copy : Bytes → Bytes
unfolding to_lower
lower_copy [] = []
lower_copy (c ∷ s) = to_lower c ∷ lower_copy s

-- `value.rfind(prefix, 0) == 0`
unfoldable pub starts_with : Bytes → Bytes → Bool
starts_with s [] = true
starts_with [] (p ∷ ps) = false
starts_with (c ∷ s) (p ∷ ps) = c == p && starts_with s ps

-- up to the first byte that is no space
unfoldable pub trim_start : Bytes → Bytes
trim_start [] = []
trim_start (c ∷ s) = if is_space c then trim_start s else c ∷ s

-- up to the last byte that is no space
unfoldable pub trim_end : Bytes → Bytes
trim_end [] = []
trim_end (c ∷ s) = elim (trim_end s) [ [] ↦ if is_space c then [] else c ∷ [] | d ∷ t ↦ c ∷ d ∷ t ]

unfoldable pub trim : Bytes → Bytes
unfolding trim_start trim_end
trim s = trim_end (trim_start s)

-- `s.c_str()`, read as a C string: the bytes before the first NUL
unfoldable pub c_str : Bytes → Bytes
c_str [] = []
c_str (c ∷ s) = if c == 0 then [] else c ∷ c_str s

-- `s.find(c)`; `none` is `npos`
unfoldable pub find : ℕ → Bytes → Option ℕ
find b [] = none
find b (c ∷ s) = elim (c == b) [
  | true ↦ some 0
  | false ↦ elim (find b s) [ none ↦ none | some i ↦ some (suc i) ]
]

-- `s.find(text)`
unfoldable pub find_text : Bytes → Bytes → Option ℕ
unfolding starts_with
find_text p [] = if is_empty p then some 0 else none
find_text p (c ∷ s) =
    let rest : Option ℕ = elim (find_text p s) [ none ↦ none | some i ↦ some (suc i) ] in
    if starts_with (c ∷ s) p then some 0 else rest

-- `s.find_last_of(set)`, for the set of bytes that pass a test
unfoldable pub find_last : (ℕ → Bool) → Bytes → Option ℕ
find_last p [] = none
find_last p (c ∷ s) = elim (find_last p s) [
  | some i ↦ some (suc i)
  | none ↦ if p c then some 0 else none
]

abbrev pub is_separator : ℕ → Bool
is_separator c = c == b'/' || c == b'\\'

-- `find_last_not_of("/\\")`, then `find_last_of("/\\", end)`
unfoldable pub basename : Bytes → Bytes
unfolding find_last
basename path = if is_empty path then [] else elim (find_last (λ c. not (is_separator c)) path) [
  | none ↦ codes "/"
  | some end ↦ elim (find_last is_separator (take (suc end) path)) [
    | none ↦ take (suc end) path
    | some slash ↦ take (end - slash) (drop (suc slash) path)
  ]
]

unfoldable pub join_path : Bytes → Bytes → Bytes
unfolding eq_bytes
join_path root [] = root
join_path root (c ∷ s) =
    if is_empty root || eq_bytes root (codes "/")
    then b'/' ∷ (if c == b'/' then s else c ∷ s)
    else if c == b'/'
    then root ++ c ∷ s
    else root ++ b'/' ∷ c ∷ s

abbrev flush : Bytes → List Bytes
flush word = if is_empty word then [] else word ∷ []

-- `while (in >> word)`; the second argument is the word read so far
read_words : Bytes → Bytes → List Bytes
read_words [] word = flush word
read_words (c ∷ s) word = elim (is_space c) [
  | true ↦ flush word ++ read_words s []
  | false ↦ read_words s (word ++ c ∷ [])
]

-- `word_set` makes a set of these, which the program asks for members and for emptiness alone.
unfoldable pub split_words : Bytes → List Bytes
unfolding read_words
split_words text = read_words text []

abbrev pub word_set : Bytes → List Bytes
word_set text = split_words text

-- puts a byte in front of the first line
unfoldable pub extend_line : ℕ → List Bytes → List Bytes
extend_line c [] = (c ∷ []) ∷ []
extend_line c (l ∷ ls) = (c ∷ l) ∷ ls

-- `while (std::getline(in, line, delimiter))`: no line follows a final delimiter
unfoldable pub lines : ℕ → Bytes → List Bytes
unfolding extend_line
lines delimiter [] = []
lines delimiter (c ∷ s) =
    if c == delimiter then [] ∷ lines delimiter s else extend_line c (lines delimiter s)

-- the loop of `unquote_value` over the bytes between the quotes; the flag is `escaped`
unquote_loop : ℕ → Bytes → Bool → Bytes
unquote_loop quote [] escaped = []
unquote_loop quote (c ∷ s) true = c ∷ unquote_loop quote s false
unquote_loop quote (c ∷ s) false = elim (quote == b'"' && c == b'\\') [
  | true ↦ unquote_loop quote s true
  | false ↦ c ∷ unquote_loop quote s false
]

-- the bytes before the last one, and the last one
unfoldable pub split_last : ℕ → Bytes → Bytes × ℕ
split_last c [] = ([], c)
split_last c (d ∷ s) = let (body, last) = split_last d s in (c ∷ body, last)

unquote : Bytes → Bytes
unfolding unquote_loop split_last
unquote [] = []
unquote (c ∷ []) = c ∷ []
unquote (quote ∷ d ∷ s) =
    let (body, last) = split_last d s in
    if not (quote == b'"' || quote == b'\'') || not (last == quote)
    then quote ∷ d ∷ s
    else unquote_loop quote body false

unfoldable pub unquote_value : Bytes → Bytes
unfolding unquote
unquote_value value = unquote (trim value)
