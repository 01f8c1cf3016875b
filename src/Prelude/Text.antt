-- ===== src/Prelude/Text.antt =====
-- Go strings as lists of bytes, and the functions of package strings that the program calls.
use Prim.Native.Nat.{ℕ, zero, suc, ◌+◌, ◌/◌, ◌%◌}
use Prim.Native.Char.{code}
use Prim.Native.String.{String}
use mathlib.Core.Path.{◌≡◌, refl}
use mathlib.Core.Logic.{◌↔◌}
use mathlib.Core.Bool.{Bool, true, false, ◌&&◌, ◌||◌}
use mathlib.Core.List.{List, [], ◌∷◌, ◌++◌, map, reverse}
use native.Mathlib.Omega.{arith}
use simple_agent_framework.Prelude.Tests.{leb, ltb, ◌==◌, if◌then◌else◌}
use simple_agent_framework.Prelude.Int.{ℤ, pos, negsuc}
use simple_agent_framework.Prelude.Lists.{length, drop}

abbrev pub Text : Type 0
Text = List ℕ

-- The bytes of an ASCII literal.
abbrev pub codes : String → Text
codes String.[] = []
codes (String.◌∷◌ c s) = code c ∷ codes s

-- `s == t`
unfoldable pub text_eq : Text → Text → Bool
text_eq [] [] = true
text_eq [] (c ∷ t) = false
text_eq (c ∷ s) [] = false
text_eq (c ∷ s) (d ∷ t) = c == d && text_eq s t

pub text_eq_iff : (s t : Text) → (text_eq s t ≡ true) ↔ (s ≡ t)
unfolding text_eq
text_eq_iff [] [] = ground arith
text_eq_iff [] (c ∷ t) = ground arith
text_eq_iff (c ∷ s) [] = ground arith
text_eq_iff (c ∷ s) (d ∷ t) = ground (arith, text_eq_iff s t)

pub text_eq_refl : (s : Text) → text_eq s s ≡ true
text_eq_refl s = (text_eq_iff s s).1 refl

pub text_eq_comm : (s t : Text) → text_eq s t ≡ text_eq t s
unfolding text_eq
text_eq_comm [] [] = refl
text_eq_comm [] (c ∷ t) = refl
text_eq_comm (c ∷ s) [] = refl
text_eq_comm (c ∷ s) (d ∷ t) = ground (arith, text_eq_comm s t)

-- `s == ""`
abbrev pub is_empty : Text → Bool
is_empty [] = true
is_empty (c ∷ s) = false

-- `strings.HasPrefix(s, p)`
unfoldable pub has_prefix : Text → Text → Bool
has_prefix s [] = true
has_prefix [] (d ∷ p) = false
has_prefix (c ∷ s) (d ∷ p) = c == d && has_prefix s p

-- `strings.Contains(s, p)`
unfoldable pub contains : Text → Text → Bool
unfolding has_prefix
contains [] p = has_prefix [] p
contains (c ∷ s) p = has_prefix (c ∷ s) p || contains s p

-- `strings.ToLower`, of ASCII letters.
unfoldable pub lower_byte : ℕ → ℕ
lower_byte c = if leb b'A' c && leb c b'Z' then c + 32 else c

unfoldable pub to_lower : Text → Text
unfolding lower_byte
to_lower s = map lower_byte s

-- `c` is an ASCII white space byte.
abbrev is_space : ℕ → Bool
is_space c = (leb 9 c && leb c 13) || c == 32

-- `c d` is U+0085 or U+00A0.
abbrev is_space₂ : ℕ → ℕ → Bool
is_space₂ c d = c == 0xc2 && (d == 0x85 || d == 0xa0)

-- `c d e` is U+1680, U+2000 to U+200A, U+2028, U+2029, U+202F, U+205F or U+3000.
abbrev is_space₃ : ℕ → ℕ → ℕ → Bool
is_space₃ c d e =
    (c == 0xe1 && d == 0x9a && e == 0x80)
    || (c == 0xe2
        && d == 0x80
        && ((leb 0x80 e && leb e 0x8a) || e == 0xa8 || e == 0xa9 || e == 0xaf))
    || (c == 0xe2 && d == 0x81 && e == 0x9f)
    || (c == 0xe3 && d == 0x80 && e == 0x80)

-- The number of bytes of the white space character that a text begins with, 0 if there is none.
space_len : Text → ℕ
space_len [] = 0
space_len (c ∷ []) = if is_space c then 1 else 0
space_len (c ∷ d ∷ []) = if is_space c then 1 else if is_space₂ c d then 2 else 0
space_len (c ∷ d ∷ e ∷ s) =
    if is_space c then 1 else if is_space₂ c d then 2 else if is_space₃ c d e then 3 else 0

-- The same of the character that a text ends with; the bytes come last first.
space_len_rev : Text → ℕ
space_len_rev [] = 0
space_len_rev (c ∷ []) = if is_space c then 1 else 0
space_len_rev (c ∷ d ∷ []) = if is_space c then 1 else if is_space₂ d c then 2 else 0
space_len_rev (c ∷ d ∷ e ∷ s) =
    if is_space c then 1 else if is_space₂ d c then 2 else if is_space₃ e d c then 3 else 0

-- Drops what `len` measures until it measures 0; each round drops a byte at least.
skip_while : (Text → ℕ) → ℕ → Text → Text
skip_while len zero s = s
skip_while len (suc n) s =
    let rest = skip_while len n (drop (len s) s) in if len s == 0 then s else rest

-- `strings.TrimSpace`
unfoldable pub trim_space : Text → Text
unfolding skip_while space_len space_len_rev
trim_space s =
    let t = skip_while space_len (length s) s in
    reverse (skip_while space_len_rev (length t) (reverse t))

-- White space before a text does not count.
pub trim_space-skip : (c : ℕ) (s : Text) → is_space c ≡ true → trim_space (c ∷ s) ≡ trim_space s
unfolding trim_space skip_while space_len
trim_space-skip c [] h = rw h refl
trim_space-skip c (d ∷ []) h = rw h refl
trim_space-skip c (d ∷ e ∷ s) h = rw h refl

-- `strings.Join`
unfoldable pub join : Text → List Text → Text
join sep [] = []
join sep (s ∷ []) = s
join sep (s ∷ t ∷ r) = s ++ sep ++ join sep (t ∷ r)

-- `%d` of a number; `n` rounds are enough for `n`.
digits_of : ℕ → ℕ → Text → Text
digits_of zero n out = out
digits_of (suc fuel) n out =
    let d = b'0' + n % 10 in
    let rest = digits_of fuel (n / 10) (d ∷ out) in if ltb n 10 then d ∷ out else rest

unfoldable pub decimal : ℕ → Text
unfolding digits_of
decimal n = digits_of (suc n) n []

trim_examples :
    (trim_space (codes "  a b \n") ≡ codes "a b")
    × (trim_space (0xc2 ∷ 0xa0 ∷ b'x' ∷ 0xe3 ∷ 0x80 ∷ 0x80 ∷ []) ≡ codes "x")
    × (trim_space (codes " ") ≡ [])
unfolding trim_space
trim_examples = (refl, refl, refl)

decimal_example : (decimal 30000 ≡ codes "30000") × (decimal 0 ≡ codes "0")
unfolding decimal
decimal_example = (refl, refl)

lower_example : contains (to_lower (codes "An ERROR: x")) (codes "error:") ≡ true
unfolding to_lower contains
lower_example = refl

-- `%d` of an `int`.
abbrev pub decimal_int : ℤ → Text
decimal_int (pos n) = decimal n
decimal_int (negsuc n) = b'-' ∷ decimal (suc n)
