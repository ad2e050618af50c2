-- ===== src/Mutex/Specification.antt =====
-- What a lock promises: data with numbers of read guards and of write guards, and how these change.
use rpi5_baremetal.Base.{ℕ, suc, ◌≡◌}

pub record Spec (T : Type 0) : Type 0 where
  pub readers : ℕ
  pub writers : ℕ
  pub value : T

-- Two states with the same parts.
pub Spec-path :
    {T : Type 0} {a b : Spec T}
    → a.readers ≡ b.readers
    → a.writers ≡ b.writers
    → a.value ≡ b.value
    → a ≡ b
Spec-path r w v = cc

-- A read guard is given only while there is no write guard, and a write guard only while there is no
-- guard at all. The data changes only under a write guard.
pub data Event {T : Type 0} (a b : Spec T) : Type 0 where
  nothing : b ≡ a → Event a b
  begin_read : a.writers ≡ 0 → b ≡ record a { readers = suc a.readers } → Event a b
  end_read : a ≡ record b { readers = suc b.readers } → Event a b
  begin_write : a.readers ≡ 0 → a.writers ≡ 0 → b ≡ record a { writers = 1 } → Event a b
  update : (v : T) → a.writers ≡ 1 → b ≡ record a { value = v } → Event a b
  end_write : a.writers ≡ 1 → b ≡ record a { writers = 0 } → Event a b

-- The states that a lock may come to.
pub data Allowed {T : Type 0} (v : T) : Spec T → Type 0 where
  fresh : Allowed v (record { readers = 0; writers = 0; value = v })
  next : {a b : Spec T} → Allowed v a → Event a b → Allowed v b
