-- ===== src/Examples/Text.antt =====
-- The bytes of a Go string: UTF-8.
use Prim.Native.String.{String}
use Prim.Native.Char.{code}
use simple_message.Prelude.{ℕ, ◌+◌, ◌/◌, ◌%◌, List, [], ◌∷◌, ◌++◌, ltb, if◌then◌else◌}

-- The last six bits of a number, as a byte that continues a character
abbrev continuation : ℕ → ℕ
continuation n = 128 + n % 64

unfoldable pub encode_rune : ℕ → List ℕ
encode_rune n =
    if ltb n 128
    then n ∷ []
    else if ltb n 2048
    then (192 + n / 64) ∷ continuation n ∷ []
    else if ltb n 65536
    then (224 + n / 4096) ∷ continuation (n / 64) ∷ continuation n ∷ []
    else (240 + n / 262144) ∷ continuation (n / 4096) ∷ continuation (n / 64) ∷ continuation n ∷ []

unfoldable pub utf8 : String → List ℕ
unfolding encode_rune
utf8 String.[] = []
utf8 (String.◌∷◌ c s) = encode_rune (code c) ++ utf8 s
