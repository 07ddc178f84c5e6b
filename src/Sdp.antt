-- ===== src/Sdp.antt =====
-- `_fixSDP` of web/static/js/transfer.js: the removal of the two kinds of bandwidth lines from a
-- session description. A text is the list of the codes of its characters. `replace` with a global
-- pattern takes the leftmost match, goes on behind it, and copies what matches nowhere; the pattern
-- `\d+\r?\n` matches at most one length, since no digit is a line end.
pub mod Lines
use p2ptransfer.Base.{
  ℕ, zero, suc, ◌+◌, ◌-◌, List, [], ◌∷◌, Option, none, some, Bool, true, false, leb, ◌==◌, ◌&&◌,
  if◌then◌else◌, length,
}

abbrev pub Text : Type 0
Text = List ℕ

abbrev pub newline : ℕ
newline = 10

abbrev pub return : ℕ
return = 13

-- `\d`
abbrev pub is_digit : ℕ → Bool
is_digit c = leb 48 c && leb c 57

-- What stands before the digits: `b=AS:` and `b=TIAS:`.
abbrev pub as_prefix : Text
as_prefix = 98 ∷ 61 ∷ 65 ∷ 83 ∷ 58 ∷ []

abbrev pub tias_prefix : Text
tias_prefix = 98 ∷ 61 ∷ 84 ∷ 73 ∷ 65 ∷ 83 ∷ 58 ∷ []

-- The length of the match of `\n`, of `\r?\n`, of `\d*\r?\n` and of `\d+\r?\n` at the start of a text.
unfoldable pub match_newline : Text → Option ℕ
match_newline [] = none
match_newline (c ∷ rest) = if c == newline then some 1 else none

abbrev pub one_more : Option ℕ → Option ℕ
one_more none = none
one_more (some n) = some (suc n)

unfoldable pub match_end : Text → Option ℕ
unfolding match_newline
match_end [] = none
match_end (c ∷ rest) =
    let behind = one_more (match_newline rest) in
    if c == return then behind else match_newline (c ∷ rest)

unfoldable pub match_digits : Text → Option ℕ
unfolding match_end
match_digits [] = none
match_digits (c ∷ rest) =
    let more = one_more (match_digits rest) in if is_digit c then more else match_end (c ∷ rest)

unfoldable pub match_number : Text → Option ℕ
unfolding match_digits
match_number [] = none
match_number (c ∷ rest) = if is_digit c then match_digits (c ∷ rest) else none

-- The length of the match of the whole pattern.
unfoldable pub match_line : Text → Text → Option ℕ
unfolding match_number
match_line [] text = match_number text
match_line (x ∷ prefix) [] = none
match_line (x ∷ prefix) (c ∷ rest) =
    let more = one_more (match_line prefix rest) in if x == c then more else none

-- `replace(pattern, '')`, with `skip` characters of the last match to come.
unfoldable pub remove : Text → ℕ → Text → Text
unfolding match_line
remove prefix skip [] = []
remove prefix (suc skip) (c ∷ rest) = remove prefix skip rest
remove prefix zero (c ∷ rest) = elim (match_line prefix (c ∷ rest)) [
  | none ↦ c ∷ remove prefix zero rest
  | some n ↦ remove prefix (n - 1) rest
]

-- `_fixSDP(type, sdp)`; the type is passed on.
unfoldable pub fix_sdp : Text → Text
unfolding remove
fix_sdp sdp = remove tias_prefix zero (remove as_prefix zero sdp)
