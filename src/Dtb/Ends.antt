-- ===== src/Dtb/Ends.antt =====
-- The loops of dtb/src/lib.rs in a memory that is zero from some address on; here those over strings.
pub mod Pointers
pub mod Walks
pub mod Reads
pub mod Items
pub mod Visits
pub mod Search
use rpi5_baremetal.Base.{
  ℕ, zero, suc, ◌+◌, ◌-◌, ◌*◌, ◌≤◌, ◌<◌, ◌≡◌, ◌≢◌, ◌==◌, refl, ap, sym, ◌∙◌, inl, inr, Bool, true,
  false, Bool-cases, Option, none, some, List, [], ◌∷◌, length, ok, err, panicked, out_of_fuel,
  ◌>>=◌, >>=-eq-ok, ◌||◌, dec_lt, arith, str_eq,
}
use mathlib.Core.Option
use rpi5_baremetal.Dtb.BigEndian.{Memory, Result, c_str, to_str, read_char_str}
use rpi5_baremetal.Dtb.CharStrings.{CharStringIter, Taken, advance, next, any_string}
use rpi5_baremetal.Dtb.DeviceNode.{
  SimpleDeviceNode, Query, PropName, is_address_cells, is_size_cells, is_compatible, is_device_name,
  is_reg, is_ranges, is_other, Value, Arm, Parsed, next_multiple_of_4, skip_value, compatible_arm,
  device_name_arm, reg_arm, match_name, prop_name, parse_prop,
}

-- The code comes to an end.
abbrev pub Ends {ℓ} : {A : Type ℓ} → Result A → Type ℓ
Ends x = x ≢ out_of_fuel

-- From `last` on, memory is zero.
abbrev pub IsBlank : Memory → ℕ → Type 0
IsBlank m last = (a : ℕ) → last ≤ a → m a ≡ 0

pub >>=-Ends :
    {A B : Type 0} (x : Result A) {k : A → Result B}
    → Ends x
    → ((a : A) → x ≡ ok a → Ends (k a))
    → Ends (x >>= k)
>>=-Ends (ok a) ends rest = rest a refl
>>=-Ends (err e) ends rest = λ h. cc h
>>=-Ends panicked ends rest = λ h. cc h
>>=-Ends out_of_fuel ends rest = λ h. ends refl

map-none : (f : List ℕ → List ℕ) (x : Option (List ℕ)) → Option.map f x ≡ none → x ≡ none
map-none f none h = refl
map-none f (some s) h = cc

to_str-Ends : (x : Option (List ℕ)) → x ≢ none → Ends (to_str x)
unfolding to_str
to_str-Ends none there = λ h. there refl
to_str-Ends (some s) there = λ h. ground (arith, h)

skip_value-Ends : (v : Value) (arm : Arm) → Ends (skip_value v arm)
unfolding skip_value next_multiple_of_4
skip_value-Ends v arm h = ground arith

module _ (m : Memory) (last : ℕ) (blank : IsBlank m last) where
  c_str-some : (limit a : ℕ) → last - a < limit → c_str limit m a ≢ none
  unfolding c_str
  c_str-some zero a enough h = omega arith
  c_str-some (suc limit) a enough h = elim (dec_lt a last) [
    | yes inside ↦ elim (Bool-cases (m a == 0)) [
      | inl over ↦ cc (rw over at h)
      | inr more ↦
          c_str-some limit (a + 1) (omega arith) (map-none _ (c_str limit m (a + 1)) (rw more at h))
    ]
    | no beyond ↦ cc (rw (blank a (omega arith)) at h)
  ]

  module _ (limit : ℕ) (enough : last < limit) where
    pub read_char_str-Ends : (a : ℕ) → Ends (read_char_str limit m a)
    unfolding read_char_str
    read_char_str-Ends a = to_str-Ends (c_str limit m a) (c_str-some limit a (omega arith))

    advance-remain :
        (it : CharStringIter) (s : List ℕ) (t : Taken)
        → advance it s ≡ ok t
        → t.rest.remain_size + 1 ≤ it.remain_size
    unfolding advance
    advance-remain it s t h = ground arith

    advance-Ends : (it : CharStringIter) (s : List ℕ) → Ends (advance it s)
    unfolding advance
    advance-Ends it s h = ground arith

    next-none : (it : CharStringIter) → (it.remain_size == 0) ≡ true → next limit m it ≡ none
    unfolding next
    next-none it over = rw over refl

    next-some :
        (it : CharStringIter)
        → (it.remain_size == 0) ≡ false
        → next limit m it ≡ some (read_char_str limit m it.pointer >>= λ s. advance it s)
    unfolding next
    next-some it more = rw more refl

    -- A string takes a byte at least.
    any_string-Ends :
        (fuel : ℕ) (name : List ℕ) (result : Bool) (it : CharStringIter)
        → it.remain_size ≤ fuel
        → Ends (any_string limit m fuel name result it)
    unfolding any_string
    any_string-Ends zero name result it few =
        rw (next-none it (ground (arith, few)), any_string) (λ h. cc h)
    any_string-Ends (suc fuel) name result it few = elim (Bool-cases (it.remain_size == 0)) [
      | inl over ↦ rw (next-none it over, any_string) (λ h. cc h)
      | inr more ↦
          rw (next-some it more, any_string)
            (>>=-Ends (read_char_str limit m it.pointer >>= λ s. advance it s)
              (>>=-Ends (read_char_str limit m it.pointer) (read_char_str-Ends it.pointer)
                (λ s _. advance-Ends it s))
              (λ t taken.
                let (s, _, last') = >>=-eq-ok (read_char_str limit m it.pointer) _ taken in
                any_string-Ends fuel name (str_eq name t.str || result) t.rest
                  (omega (arith, advance-remain it s t last'))))
    ]

    module _ (q : Query) (parents : List SimpleDeviceNode) where
      compatible_arm-Ends :
          (name : Option (List ℕ)) (v : Value) (node : SimpleDeviceNode)
          → Ends (compatible_arm limit m q parents name v node)
      unfolding compatible_arm
      compatible_arm-Ends none v node = λ h. cc h
      compatible_arm-Ends (some name) v node =
          >>=-Ends (any_string limit m v.len name false _)
            (any_string-Ends v.len name false _ (omega arith)) (λ result _ h. cc h)

      device_name_arm-Ends :
          (name : Option (List ℕ)) (v : Value) (node : SimpleDeviceNode)
          → Ends (device_name_arm limit m q parents name v node)
      unfolding device_name_arm
      device_name_arm-Ends none v node = λ h. cc h
      device_name_arm-Ends (some name) v node =
          >>=-Ends (read_char_str limit m v.address) (read_char_str-Ends v.address) (λ s _ h. cc h)

      reg_arm-Ends :
          (ancestors : List SimpleDeviceNode) (v : Value) (node : SimpleDeviceNode)
          → Ends (reg_arm limit m q parents ancestors v node)
      unfolding reg_arm
      reg_arm-Ends [] v node = λ h. cc h
      reg_arm-Ends (parent ∷ ancestors) v node = λ h. cc h

      match_name-Ends :
          (name : PropName) (v : Value) (node : SimpleDeviceNode)
          → Ends (match_name limit m q parents name v node)
      unfolding match_name
      match_name-Ends is_address_cells v node = λ h. cc h
      match_name-Ends is_size_cells v node = λ h. cc h
      match_name-Ends is_compatible v node = compatible_arm-Ends q.compatible_name v node
      match_name-Ends is_device_name v node = device_name_arm-Ends q.device_name v node
      match_name-Ends is_reg v node = reg_arm-Ends parents v node
      match_name-Ends is_ranges v node = λ h. cc h
      match_name-Ends is_other v node = λ h. cc h

      pub parse_prop-Ends :
          (strings address : ℕ) (node : SimpleDeviceNode)
          → Ends (parse_prop limit m q parents strings address node)
      unfolding parse_prop
      parse_prop-Ends strings address node =
          >>=-Ends (read_char_str limit m _) (read_char_str-Ends _) (λ name _.
            >>=-Ends (match_name limit m q parents (prop_name name) _ node)
              (match_name-Ends (prop_name name) _ node) (λ arm _. skip_value-Ends _ arm))
