-- ===== src/Dtb/Utf8.antt =====
-- The test of `CStr::to_str`: which byte strings are UTF-8, as the standard library decides it.
use rpi5_baremetal.Base.{
  ℕ, ◌<◌, ◌≡◌, refl, Bool, true, false, ◌&&◌, ◌||◌, List, [], ◌∷◌, arith, leb, ltb, ◌==◌,
  if◌then◌else◌, All,
}

abbrev within : ℕ → ℕ → ℕ → Bool
within lo hi b = leb lo b && leb b hi

abbrev continuation : ℕ → Bool
continuation b = within 0x80 0xbf b

two_bytes : ℕ → ℕ → Bool
two_bytes a b = within 0xc2 0xdf a && continuation b

three_bytes : ℕ → ℕ → ℕ → Bool
three_bytes a b c =
    ((a == 0xe0 && within 0xa0 0xbf b)
      || (within 0xe1 0xec a && continuation b)
      || (a == 0xed && within 0x80 0x9f b)
      || (within 0xee 0xef a && continuation b))
    && continuation c

four_bytes : ℕ → ℕ → ℕ → ℕ → Bool
four_bytes a b c d =
    ((a == 0xf0 && within 0x90 0xbf b)
      || (within 0xf1 0xf3 a && continuation b)
      || (a == 0xf4 && within 0x80 0x8f b))
    && continuation c
    && continuation d

-- No sequence of one length is a prefix of one of another length, so at most one test passes.
unfoldable pub is_utf8 : List ℕ → Bool
unfolding two_bytes three_bytes four_bytes
is_utf8 [] = true
is_utf8 (a ∷ []) = ltb a 0x80
is_utf8 (a ∷ b ∷ []) = if ltb a 0x80 then is_utf8 (b ∷ []) else two_bytes a b
is_utf8 (a ∷ b ∷ c ∷ []) = elim (ltb a 0x80) [
  | true ↦ is_utf8 (b ∷ c ∷ [])
  | false ↦ if two_bytes a b then is_utf8 (c ∷ []) else three_bytes a b c
]
is_utf8 (a ∷ b ∷ c ∷ d ∷ s) = elim (ltb a 0x80) [
  | true ↦ is_utf8 (b ∷ c ∷ d ∷ s)
  | false ↦ elim (two_bytes a b) [
    | true ↦ is_utf8 (c ∷ d ∷ s)
    | false ↦ elim (three_bytes a b c) [
      | true ↦ is_utf8 (d ∷ s)
      | false ↦ four_bytes a b c d && is_utf8 s
    ]
  ]
]

-- A string of ASCII bytes is UTF-8.
pub is_utf8-ascii : (s : List ℕ) → All (λ b. b < 0x80) s → is_utf8 s ≡ true
unfolding is_utf8
is_utf8-ascii [] h = refl
is_utf8-ascii (a ∷ []) h = ground arith
is_utf8-ascii (a ∷ b ∷ []) h = ground (arith, is_utf8-ascii (b ∷ []) h.1)
is_utf8-ascii (a ∷ b ∷ c ∷ []) h = ground (arith, is_utf8-ascii (b ∷ c ∷ []) h.1)
is_utf8-ascii (a ∷ b ∷ c ∷ d ∷ s) h = ground (arith, is_utf8-ascii (b ∷ c ∷ d ∷ s) h.1)
