-- ===== src/Prelude/Strings.antt =====
-- Strings as lists of bytes, and `strcmp` as a test for equality.
use Prim.Native.Nat.{ℕ}
use mathlib.Core.Path.{◌≡◌, refl, sym, ap, ◌∙◌, ap₂}
use mathlib.Core.Logic.{◌↔◌}
use mathlib.Core.Bool.{Bool, true, false, ◌&&◌}
use mathlib.Core.List.{List, [], ◌∷◌}
use native.Mathlib.Omega.{arith}
use koala_lang_pre.Prelude.Tests.{◌==◌}

unfoldable pub bytes_eq : List ℕ → List ℕ → Bool
bytes_eq [] [] = true
bytes_eq (a ∷ s) (b ∷ t) = a == b && bytes_eq s t
bytes_eq _ _ = false

pub bytes_eq_refl : (s : List ℕ) → bytes_eq s s ≡ true
unfolding bytes_eq
bytes_eq_refl [] = refl
bytes_eq_refl (c ∷ s) = let ih = bytes_eq_refl s in ground arith

pub bytes_eq_sound : (s t : List ℕ) → bytes_eq s t ≡ true → s ≡ t
unfolding bytes_eq
bytes_eq_sound [] [] h = refl
bytes_eq_sound [] (c ∷ t) h = absurd (ground arith)
bytes_eq_sound (c ∷ s) [] h = absurd (ground arith)
bytes_eq_sound (a ∷ s) (b ∷ t) h =
    let head : a ≡ b = ground arith in
    let tail : bytes_eq s t ≡ true = ground arith in
    ap₂ (λ (x : ℕ) (l : List ℕ). x ∷ l) head (bytes_eq_sound s t tail)

pub bytes_eq_iff : (s t : List ℕ) → (bytes_eq s t ≡ true) ↔ (s ≡ t)
bytes_eq_iff s t = (bytes_eq_sound s t, λ e. ap (bytes_eq s) (sym e) ∙ bytes_eq_refl s)
