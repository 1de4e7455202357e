-- ===== src/Base/Perm.antt =====
-- Lists with the same items in another order.
use mathlib.Core.List.{Permᴰ}
use tari_crypto.Base.{suc, ◌≡◌, refl, ap, subst, ◌∙◌, List, All, length}

module _ {ℓ} {A : Type ℓ} where
  pub length-perm : {xs ys : List A} → Permᴰ xs ys → length xs ≡ length ys
  length-perm Permᴰ.nil = refl
  length-perm (Permᴰ.cons e p) = ap suc (length-perm p)
  length-perm (Permᴰ.swap e e') = refl
  length-perm (Permᴰ.trans p q) = length-perm p ∙ length-perm q

  pub All-perm {κ} : (Q : A → Type κ) {xs ys : List A} → Permᴰ xs ys → All Q xs → All Q ys
  All-perm Q Permᴰ.nil h = tt
  All-perm Q (Permᴰ.cons e p) h = (subst Q e h.0, All-perm Q p h.1)
  All-perm Q (Permᴰ.swap e e') h = (subst Q e' h.1.0, (subst Q e h.0, h.1.1))
  All-perm Q (Permᴰ.trans p q) h = All-perm Q q (All-perm Q p h)
