-- ===== src/Xtask/Members.antt =====
-- Which packages xtask/src/main.rs takes from the metadata of cargo.
use rpi5_baremetal.Base.{
  ◌≡◌, ◌≢◌, refl, ap, ◌∙◌, inl, inr, Bool-cases, some, List, [], ◌∷◌, ◌++◌, map, All, str_eq,
  str_eq_refl, eq_of_str_eq,
}
use rpi5_baremetal.Process.{Text}
use rpi5_baremetal.Xtask.{Package, find_package, member_names, retain_not}

-- `find` gives each of the packages for its id.
abbrev pub AreFound : List Package → List Package → Type 0
AreFound packages ps = All (λ p. find_package p.id packages ≡ some p) ps

abbrev pub id_of : Package → Text
id_of p = p.id

abbrev pub name_of : Package → Text
name_of p = p.name

member_names-found :
    (packages ps : List Package)
    → AreFound packages ps
    → member_names packages (map id_of ps) ≡ map name_of ps
unfolding member_names
member_names-found packages [] found = refl
member_names-found packages (p ∷ ps) (here, found) =
    rw (here, member_names) (ap (λ l. p.name ∷ l) (member_names-found packages ps found))

retain_not-out :
    (out : Text) (names : List Text) → retain_not out (out ∷ names) ≡ retain_not out names
unfolding retain_not
retain_not-out out names = rw (str_eq_refl out, retain_not) refl

retain_not-other :
    (out name : Text) (names : List Text)
    → name ≢ out
    → retain_not out (name ∷ names) ≡ name ∷ retain_not out names
unfolding retain_not
retain_not-other out name names ne = elim (Bool-cases (str_eq name out)) [
  | inl same ↦ absurd (ne (eq_of_str_eq name out same))
  | inr other ↦ rw (other, retain_not) refl
]

retain_not-apart :
    (out : Text) (ps : List Package)
    → All (λ p. p.name ≢ out) ps
    → retain_not out (map name_of ps) ≡ map name_of ps
unfolding retain_not
retain_not-apart out [] apart = refl
retain_not-apart out (p ∷ ps) (ne, apart) =
    retain_not-other out p.name (map name_of ps) ne
    ∙ ap (λ l. p.name ∷ l) (retain_not-apart out ps apart)

retain_not-between :
    (out : Text) (before behind : List Package) (x : Package)
    → x.name ≡ out
    → All (λ p. p.name ≢ out) before
    → All (λ p. p.name ≢ out) behind
    → retain_not out (map name_of (before ++ x ∷ behind)) ≡ map name_of (before ++ behind)
retain_not-between out [] behind x e apart apart' =
    ap (λ n. retain_not out (n ∷ map name_of behind)) e
    ∙ retain_not-out out (map name_of behind)
    ∙ retain_not-apart out behind apart'
retain_not-between out (p ∷ before) behind x e (ne, apart) apart' =
    retain_not-other out p.name (map name_of (before ++ x ∷ behind)) ne
    ∙ ap (λ l. p.name ∷ l) (retain_not-between out before behind x e apart apart')

-- If the workspace has one package with the excluded name and the ids of its members are found, the
-- names that are kept are those of all other members, in the order of the metadata.
pub members-others :
    (out : Text) (packages before behind : List Package) (x : Package)
    → AreFound packages (before ++ x ∷ behind)
    → x.name ≡ out
    → All (λ p. p.name ≢ out) before
    → All (λ p. p.name ≢ out) behind
    → retain_not out (member_names packages (map id_of (before ++ x ∷ behind)))
      ≡ map name_of (before ++ behind)
members-others out packages before behind x found e apart apart' =
    ap (retain_not out) (member_names-found packages (before ++ x ∷ behind) found)
    ∙ retain_not-between out before behind x e apart apart'
