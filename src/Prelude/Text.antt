-- ===== src/Prelude/Text.antt =====
-- Python's operations on `str` that the program uses. Case and white space are those of ASCII.
use Prim.Native.Char.{Char, code}
use Prim.Native.Nat.{Ordering}
use Prim.Native.String.{char_at, slice, compare}
use text.Mathlib.Text.{starts_with}
use blockcheck_s.Prelude.{
  arith, Option, none, some, List, [], ◌∷◌, ℕ, zero, suc, ◌/◌, ◌%◌, ltb, ◌-◌, ◌≡◌, refl, Bool, true,
  false, ◌&&◌, ◌||◌, String, leb, eqb, string_eq, ◌==◌, if◌then◌else◌,
}

-- `s + t`. It computes where `s` is a literal, whatever `t` is.
abbrev pub append : String → String → String
append String.[] t = t
append (String.◌∷◌ c s) t = String.◌∷◌ c (append s t)

-- `t in s`
unfoldable pub contains_text : String → String → Bool
contains_text String.[] t = t == ""
contains_text (String.◌∷◌ c s) t = starts_with (String.◌∷◌ c s) t || contains_text s t

lower_char : Char → Char
lower_char c =
    if leb 65 (code c) && leb (code c) 90
    then char_at "abcdefghijklmnopqrstuvwxyz" (code c - 65)
    else c

-- `s.lower()`
unfoldable pub lower : String → String
unfolding lower_char
lower String.[] = ""
lower (String.◌∷◌ c s) = String.◌∷◌ (lower_char c) (lower s)

is_space : Char → Bool
is_space c =
    eqb (code c) 32 || leb 9 (code c) && leb (code c) 13 || leb 28 (code c) && leb (code c) 31

lstrip : String → String
unfolding is_space
lstrip String.[] = ""
lstrip (String.◌∷◌ c s) = let rest = lstrip s in if is_space c then rest else String.◌∷◌ c s

rstrip : String → String
unfolding is_space
rstrip String.[] = ""
rstrip (String.◌∷◌ c s) =
    let rest = rstrip s in if rest == "" && is_space c then "" else String.◌∷◌ c rest

-- `s.strip()`
unfoldable pub strip : String → String
unfolding lstrip rstrip
strip s = rstrip (lstrip s)

lower-strip : lower (strip "  Connect_TIMEOUT \n") ≡ "connect_timeout"
unfolding strip lower
lower-strip = refl

contains_text_inside : contains_text "open /dev/shm: denied" "dev/shm" ≡ true
unfolding contains_text
contains_text_inside = refl

abbrev pub digit : ℕ → String
digit d = slice "0123456789" d (suc d)

show_fuel : ℕ → ℕ → String
show_fuel zero n = ""
show_fuel (suc f) n =
    let high = show_fuel f (n / 10) in if ltb n 10 then digit n else append high (digit (n % 10))

-- `str(n)`, in decimal. A number has fewer digits than its successor.
unfoldable pub show : ℕ → String
unfolding show_fuel
show n = show_fuel (suc n) n

show_digits : (show 0 ≡ "0") × (show 305 ≡ "305")
unfolding show
show_digits = (refl, refl)

-- `s.split(sep)[0]` for a `sep` of one character.
unfoldable pub before : ℕ → String → String
before sep String.[] = ""
before sep (String.◌∷◌ c s) =
    let rest = before sep s in if eqb (code c) sep then "" else String.◌∷◌ c rest

-- `sep.join(parts)`
unfoldable pub join : String → List String → String
join sep [] = ""
join sep (s ∷ []) = s
join sep (s ∷ t ∷ ts) = append s (append sep (join sep (t ∷ ts)))

join_three : join ", " ("a" ∷ "b" ∷ "c" ∷ []) ≡ "a, b, c"
unfolding join
join_three = refl

-- `s[len(p):]` if `s.startswith(p)`.
unfoldable pub remove_prefix : String → String → Option String
remove_prefix String.[] s = some s
remove_prefix (String.◌∷◌ c p) String.[] = none
remove_prefix (String.◌∷◌ c p) (String.◌∷◌ d s) =
    let rest = remove_prefix p s in if eqb (code c) (code d) then rest else none

-- `text.endswith(suffix)`
unfoldable pub ends_with : String → String → Bool
ends_with String.[] suffix = suffix == ""
ends_with (String.◌∷◌ c s) suffix = String.◌∷◌ c s == suffix || ends_with s suffix

-- `a < b`, by the code points
abbrev pub text_less : String → String → Bool
text_less a b = elim (compare a b) [ Ordering.lt ↦ true | _ ↦ false ]

-- `text.startswith(prefix)`
abbrev pub starts : String → String → Bool
starts text prefix = elim (remove_prefix prefix text) [ none ↦ false | some rest ↦ true ]

pub remove_prefix-append : (p s : String) → remove_prefix p (append p s) ≡ some s
unfolding remove_prefix
remove_prefix-append String.[] s = refl
remove_prefix-append (String.◌∷◌ c p) s = ground (arith, remove_prefix-append p s)
