-- ===== src/Tests/Descriptions.antt =====
-- A session description with both kinds of bandwidth lines.
use p2ptransfer.Base.{◌≡◌, refl, arith, List, [], ◌∷◌, All, true, false}
use p2ptransfer.Sdp.{Text, fix_sdp, newline, return}
use p2ptransfer.Sdp.Lines.{
  Line, as_line, tias_line, other, text_of_all, IsProper, without_bandwidth, fix_sdp-lines,
}

-- `v=0` and `a=b=A` with their line ends; the second begins like a bandwidth line in its middle.
abbrev version : Text
version = 118 ∷ 61 ∷ 48 ∷ return ∷ newline ∷ []

abbrev attribute : Text
attribute = 97 ∷ 61 ∷ 98 ∷ 61 ∷ 65 ∷ newline ∷ []

abbrev description : List Line
description =
    other version
    ∷ as_line (51 ∷ 48 ∷ []) true
    ∷ other attribute
    ∷ tias_line (57 ∷ []) false
    ∷ other version
    ∷ []

description-IsProper : All IsProper description
description-IsProper = (
  (refl, refl),
  (
    ((refl, (refl, tt)), λ e. ground (arith, e)),
    ((refl, refl), (((refl, tt), λ e. ground (arith, e)), ((refl, refl), tt))),
  ),
)

fix_sdp-lines_example :
    fix_sdp (text_of_all description) ≡ text_of_all (without_bandwidth description)
fix_sdp-lines_example = fix_sdp-lines description description-IsProper

kept :
    fix_sdp (text_of_all description)
    ≡ text_of_all (other version ∷ other attribute ∷ other version ∷ [])
unfolding fix_sdp
kept = refl
