-- ===== src/Base/Keys.antt =====
-- Types whose values the program compares with `==`: the keys of its maps.
use Prim.Native.Nat.{ℕ}
use Prim.Native.String.{String}
use mathlib.Core.Path.{◌≡◌, refl, ap}
use mathlib.Core.Logic.{◌↔◌}
use mathlib.Core.Bool.{Bool, true, false, ◌&&◌}
use text.Mathlib.Text.{◌==◌ as str_eq}
use text.Mathlib.TextEquality.{eq_iff}
use webmux.Base.Tests.{◌==◌ as nat_eq, ==_iff}

pub record Key {ℓ} (K : Type ℓ) : Type ℓ where
  pub eq : K → K → Bool
  pub eq_iff : (a b : K) → (eq a b ≡ true) ↔ (a ≡ b)

instance abbrev pub nat_key : Key ℕ
nat_key = record { eq = nat_eq; eq_iff = ==_iff }

instance abbrev pub string_key : Key String
string_key = record { eq = str_eq; eq_iff = eq_iff }

pub both_iff : (p q : Bool) → (p && q ≡ true) ↔ ((p ≡ true) × (q ≡ true))
both_iff false q = (λ e. cc, λ e. cc)
both_iff true q = (λ e. (refl, e), λ e. e.1)

pub cong_pair {ℓ κ} : {A : Type ℓ} {B : Type κ} {x y : A × B} → x.0 ≡ y.0 → x.1 ≡ y.1 → x ≡ y
cong_pair p q = λ i. (p i, q i)

-- Pairs are compared by component.
abbrev pub pair_key {ℓ κ} : {A : Type ℓ} {B : Type κ} → ⦃a : Key A⦄ → ⦃b : Key B⦄ → Key (A × B)
pair_key ⦃a⦄ ⦃b⦄ = record {
  eq = λ x y. a.eq x.0 y.0 && b.eq x.1 y.1;
  eq_iff = λ x y. (
    λ e.
        let (p, q) = (both_iff (a.eq x.0 y.0) (b.eq x.1 y.1)).0 e in
        cong_pair ((a.eq_iff x.0 y.0).0 p) ((b.eq_iff x.1 y.1).0 q),
    λ e.
        (both_iff (a.eq x.0 y.0) (b.eq x.1 y.1)).1
          ((a.eq_iff x.0 y.0).1 (ap (λ z. z.0) e), (b.eq_iff x.1 y.1).1 (ap (λ z. z.1) e)),
  );
}

abbrev pub is_text : String → String → Bool
is_text = string_key.eq
