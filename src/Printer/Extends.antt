-- ===== src/Printer/Extends.antt =====
-- A listing of QcPresetCatalog.hpp and a later one, in which the folders stand where they were, under
-- their names, and their presets only got more.
use qcremote.Prelude.{
  length, ℕ, zero, suc, ◌≡◌, refl, sym, ap, ◌∙◌, some, List, [], ◌∷◌, ◌++◌, append-nil,
  append_assoc,
}
use qcremote.Printer.{folder_at}
use qcremote.Catalog.{Folder, PresetEntry, update_slot}

pub data Extends : List Folder → List Folder → Type 0 where
  extends_nil : (gs : List Folder) → Extends [] gs
  extends_cons :
      {f g : Folder} {fs gs : List Folder} (more : List PresetEntry)
      → g.name ≡ f.name
      → g.presets ≡ f.presets ++ more
      → Extends fs gs
      → Extends (f ∷ fs) (g ∷ gs)

pub Extends-self : (fs : List Folder) → Extends fs fs
Extends-self [] = extends_nil []
Extends-self (f ∷ fs) = extends_cons [] refl (sym (append-nil f.presets)) (Extends-self fs)

pub Extends-trans : {fs gs hs : List Folder} → Extends fs gs → Extends gs hs → Extends fs hs
Extends-trans {hs = hs} (extends_nil gs) e = extends_nil hs
Extends-trans (extends_cons {f = f} more n p e) (extends_cons more' n' p' e') =
    extends_cons (more ++ more') (n' ∙ n)
      (p' ∙ ap (λ t. t ++ more') p ∙ append_assoc f.presets more more') (Extends-trans e e')

pub Extends-append : (fs : List Folder) (f : Folder) → Extends fs (fs ++ f ∷ [])
Extends-append [] f = extends_nil (f ∷ [])
Extends-append (g ∷ fs) f = extends_cons [] refl (sym (append-nil g.presets)) (Extends-append fs f)

pub Extends-update_slot :
    (i : ℕ) (e : PresetEntry) (fs : List Folder)
    → Extends fs (update_slot i (λ f. record f { presets = f.presets ++ e ∷ [] }) fs)
unfolding update_slot
Extends-update_slot i e [] = extends_nil []
Extends-update_slot zero e (f ∷ fs) = extends_cons (e ∷ []) refl refl (Extends-self fs)
Extends-update_slot (suc i) e (f ∷ fs) =
    extends_cons [] refl (sym (append-nil f.presets)) (Extends-update_slot i e fs)

-- The folder that stands behind `done` of them.
pub folder_at-Extends :
    (done : List Folder) (f : Folder) (fs : List Folder) {gs : List Folder}
    → Extends (done ++ f ∷ fs) gs
    → (g : Folder) × (more : List PresetEntry) × (folder_at (length done) gs ≡ some g)
      × (g.name ≡ f.name)
      × (g.presets ≡ f.presets ++ more)
unfolding folder_at
folder_at-Extends [] f fs (extends_cons {g = g} more n p e) = (g, more, refl, n, p)
folder_at-Extends (d ∷ done) f fs (extends_cons more n p e) = folder_at-Extends done f fs e
