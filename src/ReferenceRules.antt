-- ===== src/ReferenceRules.antt =====
-- The rules of generated references: app/domain/reference_rules.py. The words of the file come
-- decoded.
use laa_inquests_api.Prelude.{
  ℕ, ◌≤◌, ◌≡◌, refl, ◌∙◌, Bool, true, false, not, ◌&&◌, ◌||◌, List, [], ◌∷◌, map, select, any, all,
  length, arith, leb, ◌==◌, if◌then◌else◌, is_empty, Bool-cases, inl, inr, ==_iff, ◌⊎◌,
}
use laa_inquests_api.Text.{Text, codes, upper, is_prefix, occurs_in}

abbrev pub ambiguous_characters : Text
ambiguous_characters = codes "B8G6I10OQDS5Z2"

-- `c in ambiguous_characters`
abbrev pub is_ambiguous : ℕ → Bool
is_ambiguous c = any (λ (d : ℕ). c == d) ambiguous_characters

-- `string.ascii_uppercase + string.digits`
abbrev pub uppercase_and_digits : Text
uppercase_and_digits = codes "ABCDEFGHIJKLMNOPQRSTUVWXYZ0123456789"

unfoldable pub allowed_characters : List ℕ
allowed_characters = select (λ (c : ℕ). not (is_ambiguous c)) uppercase_and_digits

abbrev unambiguous : Text → Bool
unambiguous = all (λ (c : ℕ). not (is_ambiguous c))

-- `(?:Q[^...]{0,8}|[^...]{1,9})`, for a whole text
fits : Text → Bool
fits [] = false
fits (c ∷ t) =
    ((c == b'Q') && unambiguous t && leb (length t) 8)
    || (unambiguous (c ∷ t) && leb (length (c ∷ t)) 9)

-- The text without a line feed at its end, before which `$` matches too.
without_line_feed : Text → Text
without_line_feed [] = []
without_line_feed (c ∷ t) =
    let rest = without_line_feed t in if is_empty t && (c == 10) then [] else c ∷ rest

-- Whether the pattern matches the word.
unfoldable pub is_kept : Text → Bool
unfolding fits without_line_feed
is_kept w = fits w || fits (without_line_feed w)

-- `self.banned_words`
unfoldable pub banned_words : List Text → List Text
unfolding is_kept
banned_words words = select is_kept (map upper words)

-- Whether `banned_words_pattern` is found in the text; with no words it is not searched.
unfoldable pub contains_banned_word : List Text → Text → Bool
unfolding banned_words
contains_banned_word words text =
    if is_empty (banned_words words)
    then false
    else any (λ w. occurs_in w text) (banned_words words)

parts : (a b c d : Bool) → (a && b) ≡ true → (c && d) ≡ true → (b ≡ true) × (d ≡ true) × (c ≡ true)
parts a b c d h k = ground arith

first_true : (a b : Bool) → (a && b) ≡ true → (a && true) ≡ true
first_true a b h = ground arith

either_true : (a b : Bool) → (a || b) ≡ true → (a ≡ true) ⊎ (b ≡ true)
either_true a b h = ground arith

second_true : (a b : Bool) → (a && b) ≡ true → b ≡ true
second_true a b h = ground arith

both_true : (a b : Bool) → (a && b) ≡ true → (a ≡ true) × (b ≡ true)
both_true a b h = ground arith

-- A word of unambiguous characters, no longer than the other text.
abbrev Short : Text → Text → Type 0
Short w t = (unambiguous w ≡ true) × (length w ≤ length t)

prefix-Short : (w t : Text) → unambiguous t ≡ true → is_prefix w t ≡ true → Short w t
prefix-Short [] t u h = (refl, omega arith)
prefix-Short (c ∷ w) [] u h = absurd (ground arith)
prefix-Short (c ∷ w) (d ∷ t) u h =
    let (ut, ht, e) = parts (not (is_ambiguous d)) (unambiguous t) (c == d) (is_prefix w t) u h in
    let (uw, short) = prefix-Short w t ut ht in
    (rw ((==_iff c d).0 e, uw) (first_true _ _ u), omega arith)

occurs-Short : (w t : Text) → unambiguous t ≡ true → occurs_in w t ≡ true → Short w t
occurs-Short w [] u h = prefix-Short w [] u h
occurs-Short w (d ∷ t) u h = elim (either_true _ _ h) [
  | inl e ↦ prefix-Short w (d ∷ t) u e
  | inr e ↦ let (uw, short) = occurs-Short w t (second_true _ _ u) e in (uw, omega (arith, short))
]

Short-fits : (c : ℕ) (w t : Text) → Short (c ∷ w) t → length t ≤ 8 → fits (c ∷ w) ≡ true
unfolding fits
Short-fits c w t (u, short) h = ground arith

after_q : (c : ℕ) (w t : Text) → length t ≤ 8 → (c == b'Q') ≡ true → Short w t → fits (c ∷ w) ≡ true
unfolding fits
after_q c w t h q (u, short) = ground arith

occurring_fits :
    (c : ℕ) (w t : Text)
    → unambiguous t ≡ true
    → length t ≤ 8
    → occurs_in (c ∷ w) (b'Q' ∷ t) ≡ true
    → fits (c ∷ w) ≡ true
occurring_fits c w t u h o = elim (either_true _ _ o) [
  | inl e ↦
      let (q, p) = both_true (c == b'Q') (is_prefix w t) e in
      after_q c w t h q (prefix-Short w t u p)
  | inr e ↦ Short-fits c w t (occurs-Short (c ∷ w) t u e) h
]

fits-nonempty : (w : Text) → is_kept w ≡ true → is_empty w ≡ false
unfolding is_kept fits without_line_feed
fits-nonempty [] h = absurd (ground arith)
fits-nonempty (c ∷ w) h = refl

-- A word is found either way.
abbrev stands_in : Text → Text → Bool
stands_in text w = not (is_empty w) && occurs_in w text

kept_exact :
    (w t : Text)
    → unambiguous t ≡ true
    → length t ≤ 8
    → (is_kept w && occurs_in w (b'Q' ∷ t)) ≡ stands_in (b'Q' ∷ t) w
unfolding is_kept
kept_exact [] t u h = refl
kept_exact (c ∷ w) t u h = elim (Bool-cases (occurs_in (c ∷ w) (b'Q' ∷ t))) [
  | inl e ↦ rw (e, occurring_fits c w t u h e) refl
  | inr e ↦ ground arith
]

any-kept :
    (ws : List Text) (t : Text)
    → unambiguous t ≡ true
    → length t ≤ 8
    → any (λ w. occurs_in w (b'Q' ∷ t)) (select is_kept ws) ≡ any (stands_in (b'Q' ∷ t)) ws
any-kept [] t u h = refl
any-kept (w ∷ ws) t u h = elim (Bool-cases (is_kept w)) [
  | inl e ↦ ground (arith, kept_exact w t u h, any-kept ws t u h)
  | inr e ↦ ground (arith, kept_exact w t u h, any-kept ws t u h)
]

no_words :
    (ws : List Text) (text : Text)
    → (if is_empty ws then false else any (λ w. occurs_in w text) ws)
      ≡ any (λ w. occurs_in w text) ws
no_words [] text = refl
no_words (w ∷ ws) text = refl

-- In a text of a Q and at most eight allowed characters, which an LAA reference is from its Q on,
-- the rules find a banned word exactly when one that is not empty stands there: the words that they
-- leave out lose nothing.
pub contains_banned_word_exact :
    (words : List Text) (t : Text)
    → all (λ (c : ℕ). not (is_ambiguous c)) t ≡ true
    → length t ≤ 8
    → contains_banned_word words (b'Q' ∷ t)
      ≡ any (λ w. not (is_empty w) && occurs_in w (b'Q' ∷ t)) (map upper words)
unfolding contains_banned_word banned_words
contains_banned_word_exact words t u h =
    no_words (select is_kept (map upper words)) (b'Q' ∷ t) ∙ any-kept (map upper words) t u h
