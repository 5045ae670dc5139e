-- ===== src/Prelude/Text.antt =====
-- String.prototype.trim, startsWith with slice, and split(" "), on the constructors of a string.
use Prim.Native.Nat.{ℕ}
use Prim.Native.Char.{Char, code}
use Prim.Native.String.{String, ◌++◌}
use Prim.Native.String.append
use text.Mathlib.TextEquality.{Char-path}
use mathlib.Core.Bool.{Bool, ◌&&◌, ◌||◌}
use mathlib.Core.Option.{Option, none, some}
use mathlib.Core.Path.{◌≡◌, sym, ◌∙◌}
use mathlib.Core.Logic.{inl, inr}
use native.Mathlib.Omega.{arith}
use mathlib.Core.List.{List, [], ◌∷◌}
use ai_digital_office_os.Prelude.Tests.{Bool-cases, leb, eqb, if◌then◌else◌}

-- the characters that String.prototype.trim removes
abbrev pub is_space : ℕ → Bool
is_space c =
    (leb 9 c && leb c 13)
    || eqb c 32
    || eqb c 160
    || eqb c 5760
    || (leb 8192 c && leb c 8202)
    || eqb c 8232
    || eqb c 8233
    || eqb c 8239
    || eqb c 8287
    || eqb c 12288
    || eqb c 65279

abbrev drop_leading : String → String
drop_leading String.[] = String.[]
drop_leading (String.◌∷◌ c s) =
    let rest = drop_leading s in if is_space (code c) then rest else String.◌∷◌ c s

abbrev reverse_onto : String → String → String
reverse_onto String.[] t = t
reverse_onto (String.◌∷◌ c s) t = reverse_onto s (String.◌∷◌ c t)

abbrev reversed : String → String
reversed s = reverse_onto s String.[]

-- `s.trim()`
unfoldable pub trim_text : String → String
trim_text s = reversed (drop_leading (reversed (drop_leading s)))

-- `s.startsWith(prefix)`, with `s.slice(prefix.length)`
unfoldable pub after_prefix : String → String → Option String
after_prefix String.[] s = some s
after_prefix (String.◌∷◌ c p) String.[] = none
after_prefix (String.◌∷◌ c p) (String.◌∷◌ d s) =
    let rest = after_prefix p s in if eqb (code c) (code d) then rest else none

-- a text with the prefix is the prefix and the rest of it
pub after_prefix_lem : (p s rest : String) → after_prefix p s ≡ some rest → s ≡ p ++ rest
unfolding after_prefix
after_prefix_lem String.[] s rest h =
    let same : s ≡ rest = ground (arith, h) in same ∙ sym (append.nil rest)
after_prefix_lem (String.◌∷◌ c p) String.[] rest h = cc
after_prefix_lem (String.◌∷◌ c p) (String.◌∷◌ d s) rest h =
    elim (Bool-cases (eqb (code c) (code d))) [
      | inl hit ↦
          let first : d ≡ c = sym (Char-path c d (ground (arith, hit))) in
          let later = after_prefix_lem p s rest (ground (arith, h, hit)) in
          rw (first, later) (sym (append.cons c p rest))
      | inr miss ↦ absurd (ground (arith, h, miss))
    ]

abbrev prepend : Char → List String → List String
prepend c [] = []
prepend c (word ∷ words) = String.◌∷◌ c word ∷ words

-- `s.split(" ")`
unfoldable pub split_spaces : String → List String
split_spaces String.[] = String.[] ∷ []
split_spaces (String.◌∷◌ c s) =
    let rest = split_spaces s in if eqb (code c) 32 then String.[] ∷ rest else prepend c rest
