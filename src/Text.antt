-- ===== src/Text.antt =====
-- Texts that the code compares and formats, as their code points, and the padded sequence
-- numbers of invoices.
use laa_inquests_api.Prelude.{
  ℕ, zero, suc, ◌+◌, ◌/◌, ◌%◌, ◌≡◌, refl, Bool, true, false, ◌&&◌, List, [], ◌∷◌, ◌++◌, ◌-◌, ◌||◌,
  arith, all, ltb, leb, map, ◌==◌, if◌then◌else◌,
}
use mathlib.Core.List.{reverse}
use Prim.Native.Char.{code}
use Prim.Native.String.{String}

abbrev pub Text : Type 0
Text = List ℕ

-- The code points of a text written in the source, which is ASCII.
abbrev pub codes : String → Text
codes String.[] = []
codes (String.◌∷◌ c s) = code c ∷ codes s

abbrev pub eq_text : Text → Text → Bool
eq_text [] [] = true
eq_text [] (d ∷ t) = false
eq_text (c ∷ s) [] = false
eq_text (c ∷ s) (d ∷ t) = (c == d) && eq_text s t

pub eq_text_sound : (s t : Text) → eq_text s t ≡ true → s ≡ t
eq_text_sound [] [] h = refl
eq_text_sound [] (d ∷ t) h = ground arith
eq_text_sound (c ∷ s) [] h = ground arith
eq_text_sound (c ∷ s) (d ∷ t) h = ground (arith, eq_text_sound s t)

pub eq_text_refl : (s : Text) → eq_text s s ≡ true
eq_text_refl [] = refl
eq_text_refl (c ∷ s) = ground (arith, eq_text_refl s)

-- The digit characters of a number, most significant first; `fuel` bounds their count.
unfoldable pub decimal : ℕ → ℕ → Text
decimal zero n = []
decimal (suc fuel) n =
    let rest = decimal fuel (n / 10) in
    if ltb n 10 then (b'0' + n) ∷ [] else rest ++ ((b'0' + n % 10) ∷ [])

-- `f"{n:03d}"`
unfoldable pub pad_3 : ℕ → Text
unfolding decimal
pad_3 n =
    if ltb n 1000
    then (b'0' + n / 100) ∷ (b'0' + n / 10 % 10) ∷ (b'0' + n % 10) ∷ []
    else decimal (suc n) n

pad_3_seven : pad_3 7 ≡ b'0' ∷ b'0' ∷ b'7' ∷ []
unfolding pad_3
pad_3_seven = refl

pad_3_wide : pad_3 1234 ≡ b'1' ∷ b'2' ∷ b'3' ∷ b'4' ∷ []
unfolding pad_3
pad_3_wide = refl

-- `c.isspace()`
is_space : ℕ → Bool
is_space c =
    (leb 9 c && leb c 13)
    || (leb 28 c && leb c 32)
    || (c == 133)
    || (c == 160)
    || (c == 5760)
    || (leb 8192 c && leb c 8202)
    || (c == 8232)
    || (c == 8233)
    || (c == 8239)
    || (c == 8287)
    || (c == 12288)

-- `text.strip() == ""`
unfoldable pub is_blank : Text → Bool
unfolding is_space
is_blank = all is_space

strip_left : Text → Text
strip_left [] = []
strip_left (c ∷ t) = let rest = strip_left t in if is_space c then rest else c ∷ t

-- `text.strip()`
unfoldable pub strip : Text → Text
unfolding strip_left is_space
strip t = reverse (strip_left (reverse (strip_left t)))

-- `text.upper()`, for ASCII letters
unfoldable pub upper : Text → Text
upper = map (λ (c : ℕ). if leb b'a' c && leb c b'z' then c - 32 else c)

-- `text.lower()`, for ASCII letters
unfoldable pub lower : Text → Text
lower = map (λ (c : ℕ). if leb b'A' c && leb c b'Z' then c + 32 else c)

-- `trim(text)` of the database, which takes spaces alone off both ends.
trim_left : Text → Text
trim_left [] = []
trim_left (c ∷ t) = let rest = trim_left t in if c == b' ' then rest else c ∷ t

unfoldable pub trim : Text → Text
unfolding trim_left
trim t = reverse (trim_left (reverse (trim_left t)))

-- Whether the text begins with the word.
abbrev pub is_prefix : Text → Text → Bool
is_prefix [] t = true
is_prefix (c ∷ w) [] = false
is_prefix (c ∷ w) (d ∷ t) = (c == d) && is_prefix w t

-- Whether the word stands somewhere in the text.
abbrev pub occurs_in : Text → Text → Bool
occurs_in w [] = is_prefix w []
occurs_in w (d ∷ t) = is_prefix w (d ∷ t) || occurs_in w t
