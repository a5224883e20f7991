-- ===== src/Abi/Utf8.antt =====
-- `str::from_utf8`: which bytes are UTF-8, by the table of well-formed sequences in the standard of
-- Unicode.
use numax.Prelude.{
  ℕ, Bool, true, false, ◌&&◌, Option, none, some, List, [], ◌∷◌, Bytes, ltb, leb, ◌==◌,
  if◌then◌else◌,
}

-- The lowest and the highest value of a byte.
abbrev Range : Type 0
Range = ℕ × ℕ

abbrev continuation : Range
continuation = (0x80, 0xbf)

-- The ranges of the bytes that follow a first byte.
unfoldable pub following : ℕ → Option (List Range)
following b =
    if ltb b 0x80
    then some []
    else (if ltb b 0xc2
        then none
        else (if ltb b 0xe0
            then some (continuation ∷ [])
            else (if b == 0xe0
                then some ((0xa0, 0xbf) ∷ continuation ∷ [])
                else (if b == 0xed
                    then some ((0x80, 0x9f) ∷ continuation ∷ [])
                    else (if ltb b 0xf0
                        then some (continuation ∷ continuation ∷ [])
                        else (if b == 0xf0
                            then some ((0x90, 0xbf) ∷ continuation ∷ continuation ∷ [])
                            else (if ltb b 0xf4
                                then some (continuation ∷ continuation ∷ continuation ∷ [])
                                else (if b == 0xf4
                                    then some ((0x80, 0x8f) ∷ continuation ∷ continuation ∷ [])
                                    else none))))))))

-- The bytes that still belong to the current character, and the rest of the text.
unfoldable pub continues_utf8 : Bytes → List Range → Bool
continues_utf8 [] [] = true
continues_utf8 [] (_ ∷ _) = false
continues_utf8 (b ∷ bytes) [] = elim (following b) [
  | none ↦ false
  | some ranges ↦ continues_utf8 bytes ranges
]
continues_utf8 (b ∷ bytes) ((low, high) ∷ ranges) =
    leb low b && leb b high && continues_utf8 bytes ranges

unfoldable pub is_utf8 : Bytes → Bool
unfolding continues_utf8 following
is_utf8 bytes = continues_utf8 bytes []
