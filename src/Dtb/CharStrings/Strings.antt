-- ===== src/Dtb/CharStrings/Strings.antt =====
-- The loop over `CharStringIter` of dtb/src/lib.rs, on a value that holds a list of strings.
use rpi5_baremetal.Base.{
  ℕ, zero, suc, ◌+◌, ◌-◌, some, ◌≤◌, ◌<◌, ◌^◌, ◌≡◌, refl, ap, ◌∙◌, Bool, true, false, ◌||◌, List,
  [], ◌∷◌, ◌++◌, length, All, str_eq, ok, arith,
}
use rpi5_baremetal.Dtb.Utf8.{is_utf8}
use rpi5_baremetal.Dtb.BigEndian.{Memory}
use rpi5_baremetal.Dtb.Layout.Bytes.{At, At-c_str, At-append, At-zeros, At-move, read_char_str-eq}
use rpi5_baremetal.Dtb.CharStrings.{next, any_string}

-- Each string with its NUL, and the bytes behind them.
abbrev pub c_strings : List (List ℕ) → List ℕ → List ℕ
c_strings [] rest = rest
c_strings (s ∷ ss) rest = s ++ 0 ∷ c_strings ss rest

-- How many bytes the strings take.
abbrev pub total_len : List (List ℕ) → ℕ
total_len [] = 0
total_len (s ∷ ss) = length s + 1 + total_len ss

abbrev pub contains : List ℕ → List (List ℕ) → Bool
contains name [] = false
contains name (s ∷ ss) = str_eq name s || contains name ss

-- What `CStr::to_str` takes, found within `limit` bytes.
abbrev pub IsText : ℕ → List ℕ → Type 0
IsText limit s = All (λ b. 0 < b) s × (length s < limit) × (is_utf8 s ≡ true)

or_swap : (a b c : Bool) → (b || (a || c)) ≡ ((a || b) || c)
or_swap a b c = ground arith

At-behind_nul :
    (s : List ℕ) {m : Memory} {p : ℕ} {bs : List ℕ}
    → At m p (s ++ 0 ∷ bs)
    → At m (p + (length s + 1)) bs
At-behind_nul s h = At-move (omega arith) (At-zeros 1 (At-append s h))

module _ (limit : ℕ) (m : Memory) where
  next-At :
      (p remain : ℕ) (s bs : List ℕ)
      → IsText limit s
      → length s + 1 ≤ remain
      → remain < 2 ^ 32
      → At m p (s ++ 0 ∷ bs)
      → next limit m (record { pointer = p; remain_size = remain })
        ≡ some (
            ok (record {
              str = s;
              rest = record { pointer = p + (length s + 1); remain_size = remain - (length s + 1) };
            }))
  unfolding next
  next-At p remain s bs (chars, short, utf8) fits small h =
      rw (read_char_str-eq limit m p (At-c_str limit s bs chars short h) utf8) (ground arith)

  -- On a value that holds a list of C strings in UTF-8, within its limits, and fuel for its
  -- bytes, the loop says whether the name is one of them, or what it started with.
  pub any_string-At :
      (ss : List (List ℕ)) (fuel p : ℕ) (name rest : List ℕ) (result : Bool)
      → All (IsText limit) ss
      → total_len ss ≤ fuel
      → total_len ss < 2 ^ 32
      → At m p (c_strings ss rest)
      → any_string limit m fuel name result (record { pointer = p; remain_size = total_len ss })
        ≡ ok (contains name ss || result)
  unfolding any_string
  any_string-At [] zero p name rest result texts enough small h = unfold next in refl
  any_string-At [] (suc fuel) p name rest result texts enough small h = unfold next in refl
  any_string-At (s ∷ ss) zero p name rest result texts enough small h = absurd (omega arith)
  any_string-At (s ∷ ss) (suc fuel) p name rest result texts enough small h =
      rw
        (
          next-At p (total_len (s ∷ ss)) s (c_strings ss rest) texts.0 (omega arith) small h,
          any_string,
          left,
        )
        (any_string-At ss fuel (p + (length s + 1)) name rest (str_eq name s || result) texts.1
            (omega arith) (omega arith) (At-move (omega arith) (At-behind_nul s h))
          ∙ ap ok (or_swap (str_eq name s) (contains name ss) result))
    where
      left : length s + 1 + total_len ss - (length s + 1) ≡ total_len ss
      left = omega arith
