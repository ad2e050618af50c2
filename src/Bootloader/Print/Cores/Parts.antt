-- ===== src/Bootloader/Print/Cores/Parts.antt =====
-- Texts that are out, the last one in part, for bootloader/src/print.rs.
use rpi5_baremetal.Base.{ℕ, ◌≡◌, refl, sym, ap, ◌∙◌, List, [], ◌∷◌, ◌++◌}
use mathlib.Core.List.{append-nil, append_assoc}

abbrev pub concat : List (List ℕ) → List ℕ
concat [] = []
concat (text ∷ texts) = text ++ concat texts

concat-append :
    (texts : List (List ℕ)) (text : List ℕ) → concat (texts ++ text ∷ []) ≡ concat texts ++ text
concat-append [] text = append-nil text
concat-append (t ∷ texts) text =
    ap (λ l. t ++ l) (concat-append texts text) ∙ sym (append_assoc t (concat texts) text)

-- All texts are out but the last one, of which `rest` is left.
abbrev pub InPart : List (List ℕ) → (out rest : List ℕ) → Type 0
InPart begun out rest =
    (before : List (List ℕ)) × (done : List ℕ) × (begun ≡ before ++ (done ++ rest) ∷ [])
    × (out ≡ concat before ++ done)

pub InPart-begin :
    (begun : List (List ℕ)) (out text : List ℕ)
    → out ≡ concat begun
    → InPart (begun ++ text ∷ []) out text
InPart-begin begun out text e = (begun, [], refl, e ∙ sym (append-nil (concat begun)))

pub InPart-work :
    {begun : List (List ℕ)} {out : List ℕ} (d rest : List ℕ)
    → InPart begun out (d ++ rest)
    → InPart begun (out ++ d) rest
InPart-work d rest (before, done, e, e') = (
  before,
  done ++ d,
  e ∙ ap (λ l. before ++ l ∷ []) (sym (append_assoc done d rest)),
  ap (λ l. l ++ d) e' ∙ append_assoc (concat before) done d,
)

pub InPart-end : {begun : List (List ℕ)} {out : List ℕ} → InPart begun out [] → out ≡ concat begun
InPart-end (before, done, e, e') =
    e'
    ∙ ap (λ l. concat before ++ l) (sym (append-nil done))
    ∙ sym (concat-append before (done ++ []))
    ∙ ap concat (sym e)

pub InPart-move :
    {begun begun' : List (List ℕ)} {out out' rest rest' : List ℕ}
    → begun ≡ begun'
    → out ≡ out'
    → rest ≡ rest'
    → InPart begun out rest
    → InPart begun' out' rest'
InPart-move b o r (before, done, e, e') =
    (before, done, sym b ∙ e ∙ ap (λ l. before ++ (done ++ l) ∷ []) r, sym o ∙ e')
