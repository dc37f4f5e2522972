-- ===== src/Prelude/Text.antt =====
-- What the program uses of Python's text methods, on native strings.
use mine_intelligence.Prelude.{
  Bool, List, [], false, get_elem?, if◌then◌else◌, leb, ltb, none, some, str_eq, suc, true, zero, ℕ,
  ◌%◌, ◌&&◌, ◌++ₛ◌, ◌+◌, ◌/◌, ◌==◌, ◌||◌, ◌∷◌,
}
use Prim.Native.Char.{Char, code}
use Prim.Native.Nat.{Ordering}
use Prim.Native.String.{String, compare}

-- The truth value of a text: `if s`.
abbrev pub non_empty : String → Bool
non_empty String.[] = false
non_empty (String.◌∷◌ c s) = true

-- The code points that `str.strip` removes.
is_space : Char → Bool
is_space c =
    let n = code c in
    (leb 9 n && leb n 13)
    || (leb 28 n && leb n 32)
    || n == 133
    || n == 160
    || n == 5760
    || (leb 8192 n && leb n 8202)
    || n == 8232
    || n == 8233
    || n == 8239
    || n == 8287
    || n == 12288

lstrip : String → String
lstrip String.[] = ""
lstrip (String.◌∷◌ c s) = let rest = lstrip s in if is_space c then rest else String.◌∷◌ c s

cons_unless_blank : Char → String → String
cons_unless_blank c String.[] = if is_space c then "" else String.◌∷◌ c ""
cons_unless_blank c (String.◌∷◌ d s) = String.◌∷◌ c (String.◌∷◌ d s)

rstrip : String → String
rstrip String.[] = ""
rstrip (String.◌∷◌ c s) = cons_unless_blank c (rstrip s)

-- s.strip()
unfoldable pub strip : String → String
unfolding is_space lstrip cons_unless_blank rstrip
strip s = rstrip (lstrip s)

cons_first : Char → List String → List String
cons_first c [] = String.◌∷◌ c "" ∷ []
cons_first c (field ∷ rest) = String.◌∷◌ c field ∷ rest

-- s.split(",")
unfoldable pub split_comma : String → List String
unfolding cons_first
split_comma String.[] = "" ∷ []
split_comma (String.◌∷◌ c s) =
    if code c == b',' then "" ∷ split_comma s else cons_first c (split_comma s)

-- s[:n]
unfoldable pub prefix : ℕ → String → String
prefix zero s = ""
prefix (suc n) String.[] = ""
prefix (suc n) (String.◌∷◌ c s) = String.◌∷◌ c (prefix n s)

is_lt : Ordering → Bool
is_lt Ordering.lt = true
is_lt _ = false

insert_text : String → List String → List String
insert_text s [] = s ∷ []
insert_text s (t ∷ ts) =
    let rest = insert_text s ts in
    if str_eq s t then t ∷ ts else if is_lt (compare s t) then s ∷ t ∷ ts else t ∷ rest

-- sorted(set(texts))
unfoldable pub sorted_set : List String → List String
unfolding insert_text is_lt
sorted_set [] = []
sorted_set (s ∷ ss) = insert_text s (sorted_set ss)

abbrev digit : ℕ → String
digit n =
    elim (get_elem? {A = String} ("0" ∷ "1" ∷ "2" ∷ "3" ∷ "4" ∷ "5" ∷ "6" ∷ "7" ∷ "8" ∷ "9" ∷ [])
      n) [ none ↦ "" | some d ↦ d ]

-- Decimal digits, in at most `fuel` of them.
digits_of : ℕ → ℕ → String
digits_of zero n = ""
digits_of (suc fuel) n =
    let rest = digits_of fuel (n / 10) in if ltb n 10 then digit n else rest ++ₛ digit (n % 10)

-- str(n): a number has no more digits than its own value and one.
unfoldable pub text_of : ℕ → String
unfolding digits_of
text_of n = digits_of (n + 1) n
