-- ===== src/Xtask/Guard/Names.antt =====
-- The names of packages that xtask/src/main.rs goes through.
use rpi5_baremetal.Base.{
  ◌≡◌, ◌≢◌, refl, sym, ap, ◌∙◌, inl, inr, Bool, true, false, Bool-cases, Option, none, some, List,
  [], ◌∷◌, All, codes, str_eq, str_eq_refl, if◌then◌else◌, Outcome, ok, err, panicked, out_of_fuel,
}
use rpi5_baremetal.Process.{Text, Finish, not_spawned, not_waited, finished, success}
use rpi5_baremetal.Xtask.{
  Stop, Library, retain_not, names_of, members_of, or_exit, unwrap, member_names,
}
use rpi5_baremetal.Xtask.{CargoMetadata}
use mathlib.Core.Path.{subst}

pub str_eq-apart : (a b : Text) → str_eq a b ≡ false → a ≢ b
str_eq-apart a b h e = cc (sym h ∙ ap (λ x. str_eq a x) (sym e) ∙ str_eq_refl a)

-- What is retained is not what is out, and is as the names were.
pub retain_not-keeps :
    (P : Text → Type 0) (out : Text) (names : List Text)
    → All P names
    → All (λ name. P name × (name ≢ out)) (retain_not out names)
unfolding retain_not
retain_not-keeps P out [] p = tt
retain_not-keeps P out (name ∷ names) (here, p) = elim (Bool-cases (str_eq name out)) [
  | inl same ↦ rw (same, retain_not) (retain_not-keeps P out names p)
  | inr other ↦
      rw (other, retain_not) ((here, str_eq-apart name out other), retain_not-keeps P out names p)
]

pub All-any : (names : List Text) → All (λ name. Unit {0}) names
All-any [] = tt
All-any (name ∷ names) = (tt, All-any names)

pub All-imp :
    {P Q : Text → Type 0} (names : List Text)
    → ((name : Text) → P name → Q name)
    → All P names
    → All Q names
All-imp [] f p = tt
All-imp (name ∷ names) f (here, p) = (f name here, All-imp names f p)

abbrev pub NotXtask : Text → Type 0
NotXtask name = name ≢ codes "xtask"

-- The members that are found are not xtask.
abbrev pub OthersFound : Outcome Stop (List Text) → Type 0
OthersFound r = (names : List Text) → r ≡ ok names → All NotXtask names

pub unwrap-ok : {A : Type 0} (r : Outcome Stop A) (a : A) → unwrap r ≡ ok a → r ≡ ok a
unfolding unwrap
unwrap-ok (ok b) a h = h
unwrap-ok (err (Stop.exit c)) a h = cc
unwrap-ok (err Stop.error) a h = cc
unwrap-ok panicked a h = cc
unwrap-ok out_of_fuel a h = cc

pub or_exit-ok : {A : Type 0} (r : Outcome Stop A) (a : A) → or_exit r ≡ ok a → r ≡ ok a
unfolding or_exit
or_exit-ok (ok b) a h = h
or_exit-ok (err e) a h = cc
or_exit-ok panicked a h = cc
or_exit-ok out_of_fuel a h = cc

pub ok_injective : {A : Type 0} {a b : A} → ◌≡◌ {A = Outcome Stop A} (ok a) (ok b) → a ≡ b
ok_injective h = cc

pub if-yes : {A : Type 0} (t : Bool) (x y : A) → t ≡ true → (if t then x else y) ≡ x
if-yes t x y e = rw e refl

pub if-no : {A : Type 0} (t : Bool) (x y : A) → t ≡ false → (if t then x else y) ≡ y
if-no t x y e = rw e refl

module _ (library : Library) where
  names_of-OthersFound : (m : Option CargoMetadata) → OthersFound (names_of library m)
  unfolding names_of
  names_of-OthersFound none names h = cc
  names_of-OthersFound (some m) names h =
      let found : List Text = member_names m.packages m.workspace_members in
      subst (All NotXtask) (ok_injective h) (
        All-imp _ (λ name p. p.1)
          (retain_not-keeps (λ _. Unit {0}) (codes "xtask") found (All-any found)))

  pub members_of-OthersFound : (f : Finish) → OthersFound (members_of library f)
  unfolding members_of
  members_of-OthersFound not_spawned names h = cc
  members_of-OthersFound not_waited names h = cc
  members_of-OthersFound (finished code stdout) names h = elim (Bool-cases (success code)) [
    | inl good ↦
        names_of-OthersFound (library.from_slice stdout) names
          (sym (if-yes (success code) _ _ good) ∙ h)
    | inr bad ↦ absurd (cc (sym (if-no (success code) _ _ bad) ∙ h))
  ]
