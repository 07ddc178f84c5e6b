-- ===== src/Sdp/Lines.antt =====
-- What `_fixSDP` does to a description that is made of lines.
use p2ptransfer.Base.{
  ℕ, zero, suc, ◌-◌, ◌≡◌, ◌≢◌, refl, ap, ◌∙◌, arith, List, [], ◌∷◌, ◌++◌, Option, none, some, Bool,
  true, false, leb, ◌==◌, ==_self, ◌&&◌, if◌then◌else◌, length, All,
}
use p2ptransfer.Sdp.{
  Text, newline, return, is_digit, as_prefix, tias_prefix, match_newline, one_more, match_end,
  match_digits, match_number, match_line, remove, fix_sdp,
}

-- The prefix and the text differ where both have a character.
abbrev pub differs : Text → Text → Bool
differs [] text = false
differs (x ∷ prefix) [] = false
differs (x ∷ prefix) (c ∷ text) = if x == c then differs prefix text else true

-- The prefix begins nowhere in the text, at its end included.
abbrev pub is_free : Text → Text → Bool
is_free prefix [] = true
is_free prefix (c ∷ text) = differs prefix (c ∷ text) && is_free prefix text

abbrev pub line_end : Bool → Text
line_end true = return ∷ newline ∷ []
line_end false = newline ∷ []

pub data Line : Type 0 where
  as_line tias_line : List ℕ → Bool → Line
  other : Text → Line

abbrev pub text_of : Line → Text
text_of (as_line digits cr) = as_prefix ++ (digits ++ line_end cr)
text_of (tias_line digits cr) = tias_prefix ++ (digits ++ line_end cr)
text_of (other text) = text

abbrev pub text_of_all : List Line → Text
text_of_all [] = []
text_of_all (l ∷ ls) = text_of l ++ text_of_all ls

abbrev pub AreDigits : List ℕ → Type 0
AreDigits [] = Unit {0}
AreDigits (c ∷ rest) = (is_digit c ≡ true) × AreDigits rest

-- A bandwidth line has digits; in any other line neither prefix begins.
abbrev pub IsProper : Line → Type 0
IsProper (as_line digits cr) = AreDigits digits × (digits ≢ [])
IsProper (tias_line digits cr) = AreDigits digits × (digits ≢ [])
IsProper (other text) = (is_free as_prefix text ≡ true) × (is_free tias_prefix text ≡ true)

abbrev pub without_bandwidth : List Line → List Line
without_bandwidth [] = []
without_bandwidth (as_line digits cr ∷ ls) = without_bandwidth ls
without_bandwidth (tias_line digits cr ∷ ls) = without_bandwidth ls
without_bandwidth (other text ∷ ls) = other text ∷ without_bandwidth ls

-- Without the lines of the first kind only.
abbrev without_as : List Line → List Line
without_as [] = []
without_as (as_line digits cr ∷ ls) = without_as ls
without_as (tias_line digits cr ∷ ls) = tias_line digits cr ∷ without_as ls
without_as (other text ∷ ls) = other text ∷ without_as ls

differs-match :
    (prefix text more : Text) → differs prefix text ≡ true → match_line prefix (text ++ more) ≡ none
unfolding match_line
differs-match [] text more h = ground (arith, h)
differs-match (x ∷ prefix) [] more h = ground (arith, h)
differs-match (x ∷ prefix) (c ∷ text) more h = ground (arith, differs-match prefix text more)

and_left : (a b : Bool) → (a && b) ≡ true → a ≡ true
and_left true b h = refl
and_left false b h = h

and_right : (a b : Bool) → (a && b) ≡ true → b ≡ true
and_right true b h = h
and_right false b h = ground (arith, h)

remove-free :
    (prefix text more : Text)
    → is_free prefix text ≡ true
    → remove prefix zero (text ++ more) ≡ text ++ remove prefix zero more
unfolding remove
remove-free prefix [] more h = refl
remove-free prefix (c ∷ text) more h =
    ap
      (λ (o : Option ℕ). elim o as (λ y. Text) [
        | none ↦ c ∷ remove prefix zero (text ++ more)
        | some n ↦ remove prefix (n - 1) (text ++ more)
      ])
      (differs-match prefix (c ∷ text) more (and_left (differs prefix (c ∷ text)) _ h))
    ∙ ap (λ t. c ∷ t) (remove-free prefix text more (and_right (differs prefix (c ∷ text)) _ h))

remove-skip :
    (prefix text more : Text) → remove prefix (length text) (text ++ more) ≡ remove prefix zero more
unfolding remove
remove-skip prefix [] more = refl
remove-skip prefix (c ∷ text) more = remove-skip prefix text more

match_end-line_end :
    (cr : Bool) (more : Text) → match_end (line_end cr ++ more) ≡ some (length (line_end cr))
unfolding match_end match_newline
match_end-line_end true more = refl
match_end-line_end false more = refl

match_digits-line :
    (digits : List ℕ) (cr : Bool) (more : Text)
    → AreDigits digits
    → match_digits ((digits ++ line_end cr) ++ more) ≡ some (length (digits ++ line_end cr))
unfolding match_digits
match_digits-line [] true more h = match_end-line_end true more
match_digits-line [] false more h = match_end-line_end false more
match_digits-line (c ∷ digits) cr more h =
    rw h.0 (ap one_more (match_digits-line digits cr more h.1))

match_number-line :
    (digits : List ℕ) (cr : Bool) (more : Text)
    → AreDigits digits
    → digits ≢ []
    → match_number ((digits ++ line_end cr) ++ more) ≡ some (length (digits ++ line_end cr))
unfolding match_number
match_number-line [] cr more h n = absurd (n refl)
match_number-line (c ∷ digits) cr more h n =
    ap (λ b. if b then match_digits (((c ∷ digits) ++ line_end cr) ++ more) else none) h.0
    ∙ match_digits-line (c ∷ digits) cr more h

match_line-line :
    (prefix number more : Text)
    → match_number (number ++ more) ≡ some (length number)
    → match_line prefix ((prefix ++ number) ++ more) ≡ some (length (prefix ++ number))
unfolding match_line
match_line-line [] number more h = h
match_line-line (x ∷ prefix) number more h =
    rw (==_self x) (ap one_more (match_line-line prefix number more h))

-- A whole match is taken out.
remove-line :
    (prefix line more : Text)
    → line ≢ []
    → match_line prefix (line ++ more) ≡ some (length line)
    → remove prefix zero (line ++ more) ≡ remove prefix zero more
unfolding remove
remove-line prefix [] more n h = absurd (n refl)
remove-line prefix (c ∷ text) more n h =
    ap
      (λ (o : Option ℕ). elim o as (λ y. Text) [
        | none ↦ c ∷ remove prefix zero (text ++ more)
        | some n ↦ remove prefix (n - 1) (text ++ more)
      ])
      h
    ∙ ap (λ k. remove prefix k (text ++ more)) (suc_less (length text))
    ∙ remove-skip prefix text more
  where
    suc_less : (n : ℕ) → suc n - 1 ≡ n
    suc_less n = omega arith

remove-bandwidth :
    (prefix : Text) (digits : List ℕ) (cr : Bool) (more : Text)
    → prefix ≢ []
    → AreDigits digits
    → digits ≢ []
    → remove prefix zero ((prefix ++ (digits ++ line_end cr)) ++ more) ≡ remove prefix zero more
remove-bandwidth [] digits cr more p h n = absurd (p refl)
remove-bandwidth (x ∷ prefix) digits cr more p h n =
    remove-line (x ∷ prefix) ((x ∷ prefix) ++ (digits ++ line_end cr)) more (λ e. ground (arith, e))
      (match_line-line (x ∷ prefix) (digits ++ line_end cr) more
        (match_number-line digits cr more h n))

-- Neither prefix begins among digits and line ends.
digits-IsFree :
    (x : ℕ) (prefix : Text) (digits : List ℕ) (cr : Bool)
    → leb 58 x ≡ true
    → AreDigits digits
    → is_free (x ∷ prefix) (digits ++ line_end cr) ≡ true
digits-IsFree x prefix [] true b h = ground (arith, b)
digits-IsFree x prefix [] false b h = ground (arith, b)
digits-IsFree x prefix (c ∷ digits) cr b h =
    ground (arith, b, h.0, digits-IsFree x prefix digits cr b h.1)

remove-as :
    (ls : List Line)
    → All IsProper ls
    → remove as_prefix zero (text_of_all ls) ≡ text_of_all (without_as ls)
unfolding remove
remove-as [] q = refl
remove-as (as_line digits cr ∷ ls) q =
    remove-bandwidth as_prefix digits cr (text_of_all ls) (λ e. ground (arith, e)) q.0.0 q.0.1
    ∙ remove-as ls q.1
remove-as (tias_line digits cr ∷ ls) q =
    remove-free as_prefix (text_of (tias_line digits cr)) (text_of_all ls)
      (digits-IsFree 98 (61 ∷ 65 ∷ 83 ∷ 58 ∷ []) digits cr refl q.0.0)
    ∙ ap (λ t. text_of (tias_line digits cr) ++ t) (remove-as ls q.1)
remove-as (other text ∷ ls) q =
    remove-free as_prefix text (text_of_all ls) q.0.0 ∙ ap (λ t. text ++ t) (remove-as ls q.1)

remove-tias :
    (ls : List Line)
    → All IsProper ls
    → remove tias_prefix zero (text_of_all (without_as ls)) ≡ text_of_all (without_bandwidth ls)
unfolding remove
remove-tias [] q = refl
remove-tias (as_line digits cr ∷ ls) q = remove-tias ls q.1
remove-tias (tias_line digits cr ∷ ls) q =
    remove-bandwidth tias_prefix digits cr (text_of_all (without_as ls)) (λ e. ground (arith, e))
      q.0.0 q.0.1
    ∙ remove-tias ls q.1
remove-tias (other text ∷ ls) q =
    remove-free tias_prefix text (text_of_all (without_as ls)) q.0.1
    ∙ ap (λ t. text ++ t) (remove-tias ls q.1)

-- From a description made of bandwidth lines of the two kinds, each with at least one digit and ended
-- with or without a carriage return, and of lines in which neither prefix begins, `_fixSDP` takes
-- out the bandwidth lines whole and leaves the others as they are, in their order.
pub fix_sdp-lines :
    (ls : List Line)
    → All IsProper ls
    → fix_sdp (text_of_all ls) ≡ text_of_all (without_bandwidth ls)
unfolding fix_sdp
fix_sdp-lines ls q = ap (remove tias_prefix zero) (remove-as ls q) ∙ remove-tias ls q
