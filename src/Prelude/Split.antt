-- ===== src/Prelude/Split.antt =====
-- Go's `strings.Split`, `strings.SplitN` and `strings.Join` at a separator of one character.
use Prim.Native.Nat.{ℕ}
use Prim.Native.Char.{Char, code}
use Prim.Native.String
use Prim.Native.String.{String}
use text.Mathlib.TextLemmas.{nil-append, cons-append}
use mathlib.Core.Path.{◌≡◌, refl, ap, ◌∙◌}
use mathlib.Core.Bool.{Bool, true, not, ◌&&◌}
use mathlib.Core.Option
use mathlib.Core.Option.{Option, none, some}
use mathlib.Core.List.{List, [], ◌∷◌}
use native.Mathlib.Omega.{arith}
use tasks_service.Prelude.Tests.{nat_eq, if◌then◌else◌}
use tasks_service.Prelude.Lists.{All}

infixr 65 ◌<>◌
abbrev pub ◌<>◌ : String → String → String
s <> t = String.◌++◌ s t

-- The text before and after the first character with this code, if there is one.
unfoldable pub cut : ℕ → String → Option (String × String)
cut sep String.[] = none
cut sep (String.◌∷◌ c s) =
    let rest = cut sep s in
    if nat_eq (code c) sep
    then some (String.[], s)
    else Option.map (λ (p : String × String). (String.◌∷◌ c p.0, p.1)) rest

-- The character before the first of the parts.
abbrev pub onto_first : Char → List String → List String
onto_first c [] = String.◌∷◌ c String.[] ∷ []
onto_first c (part ∷ parts) = String.◌∷◌ c part ∷ parts

unfoldable pub split : ℕ → String → List String
split sep String.[] = String.[] ∷ []
split sep (String.◌∷◌ c s) =
    let rest = split sep s in if nat_eq (code c) sep then String.[] ∷ rest else onto_first c rest

unfoldable pub join : Char → List String → String
join sep [] = String.[]
join sep (part ∷ []) = part
join sep (part ∷ q ∷ parts) = part <> String.◌∷◌ sep (join sep (q ∷ parts))

-- No character of the text has this code.
unfoldable pub lacks : ℕ → String → Bool
lacks sep String.[] = true
lacks sep (String.◌∷◌ c s) = not (nat_eq (code c) sep) && lacks sep s

abbrev pub Lacks : ℕ → String → Type 0
Lacks sep s = lacks sep s ≡ true

pub split-eq_of_Lacks : (sep : ℕ) (s : String) → Lacks sep s → split sep s ≡ s ∷ []
unfolding split lacks
split-eq_of_Lacks sep String.[] h = refl
split-eq_of_Lacks sep (String.◌∷◌ c s) h = ground (arith, split-eq_of_Lacks sep s)

pub split-append :
    (sep : Char) (s t : String)
    → Lacks (code sep) s
    → split (code sep) (s <> String.◌∷◌ sep t) ≡ s ∷ split (code sep) t
unfolding split lacks
split-append sep String.[] t h = rw nil-append (ground arith)
split-append sep (String.◌∷◌ c s) t h = rw cons-append (ground (arith, split-append sep s t))

pub cut-append :
    (sep : Char) (s t : String)
    → Lacks (code sep) s
    → cut (code sep) (s <> String.◌∷◌ sep t) ≡ some (s, t)
unfolding cut lacks
cut-append sep String.[] t h = rw nil-append (ground arith)
cut-append sep (String.◌∷◌ c s) t h = rw cons-append (ground (arith, cut-append sep s t))

-- Splitting what was joined gives the parts back, if the separator stands in none of them.
pub split-join :
    (sep : Char) (part : String) (parts : List String)
    → All (Lacks (code sep)) (part ∷ parts)
    → split (code sep) (join sep (part ∷ parts)) ≡ part ∷ parts
unfolding join
split-join sep part [] h = split-eq_of_Lacks (code sep) part h.0
split-join sep part (q ∷ parts) h =
    split-append sep part (join sep (q ∷ parts)) h.0 ∙ ap (◌∷◌ part) (split-join sep q parts h.1)
