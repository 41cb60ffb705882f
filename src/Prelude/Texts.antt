-- ===== src/Prelude/Texts.antt =====
-- Go's `strings.TrimSpace`, as far as the code uses it: whether anything is left.
use Prim.Native.Nat.{ℕ}
use Prim.Native.Char.{Char, code}
use Prim.Native.String.{String, [], ◌∷◌}
use mathlib.Core.Bool.{Bool, true, ◌&&◌, ◌||◌}
use tasks_service.Prelude.Tests.{nat_eq, leb}

abbrev is_between : ℕ → ℕ → ℕ → Bool
is_between a b n = leb a n && leb n b

-- `unicode.IsSpace`
abbrev pub is_space : Char → Bool
is_space c =
    let n = code c in
    is_between 9 13 n
    || (nat_eq n 32
        || (nat_eq n 133
            || (nat_eq n 160
                || (nat_eq n 5760
                    || (is_between 8192 8202 n
                        || (nat_eq n 8232
                            || (nat_eq n 8233
                                || (nat_eq n 8239 || (nat_eq n 8287 || nat_eq n 12288)))))))))

-- strings.TrimSpace(s) == ""
unfoldable pub is_blank : String → Bool
is_blank [] = true
is_blank (c ∷ s) = is_space c && is_blank s
