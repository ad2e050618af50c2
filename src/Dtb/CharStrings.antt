-- ===== src/Dtb/CharStrings.antt =====
-- `CharStringIter` of dtb/src/lib.rs: the NUL-terminated strings that a property's value holds.
pub mod Strings
use rpi5_baremetal.Base.{
  ℕ, zero, suc, ◌+◌, ◌-◌, ◌^◌, Bool, ◌||◌, Option, none, some, List, length, ltb, leb, ◌==◌,
  if◌then◌else◌, str_eq, ok, err, out_of_fuel, ◌>>=◌,
}
use rpi5_baremetal.Dtb.BigEndian.{Memory, Result, over_flow, too_small, read_char_str}

pub record CharStringIter : Type 0 where
  pub pointer : ℕ
  pub remain_size : ℕ

-- What `next_internal` leaves in the iterator, with the string that it returns.
pub record Taken : Type 0 where
  pub str : List ℕ
  pub rest : CharStringIter

-- Behind a string that was read: the pointer and the rest size move past it and its NUL.
unfoldable pub advance : CharStringIter → List ℕ → Result Taken
advance it s =
    if leb (2 ^ 32) (length s + 1)
    then err over_flow
    else if ltb it.remain_size (length s + 1)
    then err too_small
    else ok (record {
      str = s;
      rest = record {
        pointer = it.pointer + (length s + 1);
        remain_size = it.remain_size - (length s + 1);
      };
    })

module _ (limit : ℕ) (m : Memory) where
  -- `next`: the outer `none` is the end of the iteration.
  unfoldable pub next : CharStringIter → Option (Result Taken)
  unfolding advance
  next it =
      if it.remain_size == 0
      then none
      else some (read_char_str limit m it.pointer >>= λ s. advance it s)

  -- The `for` loop of `parse_prop`: is one of the strings the name? The first error ends it.
  -- Each string takes a byte at least, so `remain_size` rounds are enough.
  unfoldable pub any_string : ℕ → List ℕ → Bool → CharStringIter → Result Bool
  any_string zero name result it = elim (next it) [ none ↦ ok result | some _ ↦ out_of_fuel ]
  any_string (suc fuel) name result it = elim (next it) [
    | none ↦ ok result
    | some r ↦ r >>= λ t. any_string fuel name (str_eq name t.str || result) t.rest
  ]
