-- ===== src/Machine/Acp/Cap.antt =====
-- How much of a text `capped` keeps.
use Prim.Native.Char.{Char, code}
use Prim.Native.String.{[], ◌∷◌, ◌++◌}
use Prim.Native.String.append
use text.Mathlib.TextLemmas.{append-nil}
use webmux.Base.{
  ℕ, zero, suc, ◌-◌, ◌+◌, ◌≤◌, ◌<◌, ◌≡◌, refl, ap, sym, ◌∙◌, String, Bool, true, false, ltb, arith,
  Bool-cases, ltb→lt, ◌⊎◌, inl, inr, ◌==◌, ==_iff,
}
use webmux.Base.Utf8.{len_utf8}
use webmux.Machine.Acp.Texts.{str_len, is_char_boundary, truncate, last_boundary, capped_text}

len_bounds : (c : ℕ) → (1 ≤ len_utf8 c) × (len_utf8 c ≤ 4)
unfolding len_utf8
len_bounds c = (ground arith, ground arith)

last_boundary-le : (s : String) (n : ℕ) → last_boundary s n ≤ n
unfolding last_boundary
last_boundary-le s zero = omega arith
last_boundary-le s (suc n) = ground (arith, last_boundary-le s n)

last_boundary_is : (s : String) (n : ℕ) → is_char_boundary s (last_boundary s n) ≡ true
unfolding last_boundary is_char_boundary
last_boundary_is [] zero = refl
last_boundary_is (c ∷ s) zero = refl
last_boundary_is s (suc n) = elim (Bool-cases (is_char_boundary s (suc n))) [
  | inl e ↦ rw e e
  | inr e ↦ rw e (last_boundary_is s n)
]

-- No boundary is between it and `n`.
last_boundary_max :
    (s : String) (n b : ℕ) → is_char_boundary s b ≡ true → b ≤ n → b ≤ last_boundary s n
unfolding last_boundary
last_boundary_max s zero b e h = omega (arith, h)
last_boundary_max s (suc n) b e h = elim (Bool-cases (is_char_boundary s (suc n))) [
  | inl f ↦ rw f h
  | inr f ↦ rw f (last_boundary_max s n b e (below f (b == suc n) refl))
]
  where
    below : is_char_boundary s (suc n) ≡ false → (t : Bool) → (b == suc n) ≡ t → b ≤ n
    below f true q =
        let p : b ≡ suc n = (==_iff b (suc n)).0 q in
        absurd (ground (arith, ap (is_char_boundary s) p, e, f))
    below f false q = ground (arith, q, h)

length-truncate : (s : String) (b : ℕ) → is_char_boundary s b ≡ true → str_len (truncate s b) ≡ b
unfolding truncate str_len is_char_boundary
length-truncate [] zero e = refl
length-truncate [] (suc b) e = absurd (ground (arith, e))
length-truncate (c ∷ s) zero e = refl
length-truncate (c ∷ s) (suc b) e =
    ground (arith, e, length-truncate s (suc b - len_utf8 (code c)), len_bounds (code c))

boundary_cons :
    (c : Char) (s : String) (m b : ℕ)
    → m ≡ len_utf8 (code c) + b
    → is_char_boundary s b ≡ true
    → is_char_boundary (c ∷ s) m ≡ true
unfolding is_char_boundary
boundary_cons c s zero b e f = refl
boundary_cons c s (suc m) b e f =
    let p : suc m - len_utf8 (code c) ≡ b = omega (arith, e) in
    ground (arith, e, f, ap (is_char_boundary s) p)

-- Three bytes at most separate a place from a boundary before it.
near :
    (s : String) (n : ℕ)
    → n ≤ str_len s
    → (b : ℕ) × (is_char_boundary s b ≡ true) × (b ≤ n) × (n < b + 4)
unfolding str_len is_char_boundary
near [] n h = (0, refl, omega arith, omega (arith, h))
near (c ∷ s) n h = elim (Bool-cases (ltb n (len_utf8 (code c)))) [
  | inl e ↦ (0, refl, omega arith, ground (arith, e, len_bounds (code c)))
  | inr e ↦
      let k = len_utf8 (code c) in
      let (b, f, below, above) = near s (n - k) (ground (arith, e, h)) in
      (
        k + b,
        boundary_cons c s (k + b) b refl f,
        ground (arith, e, below),
        ground (arith, e, above),
      )
]

truncate_prefix : (s : String) (n : ℕ) → (rest : String) × (s ≡ truncate s n ++ rest)
unfolding truncate
truncate_prefix [] n = ([], sym (append.nil []))
truncate_prefix (c ∷ s) zero = (c ∷ s, sym (append.nil (c ∷ s)))
truncate_prefix (c ∷ s) (suc n) =
    let m = suc n - len_utf8 (code c) in
    let (rest, e) = truncate_prefix s m in
    let t : truncate (c ∷ s) (suc n) ≡ c ∷ truncate s m = ground arith in
    (rest, ap (◌∷◌ c) e ∙ sym (append.cons c (truncate s m) rest) ∙ sym (ap (λ x. x ++ rest) t))

-- `capped` keeps a beginning of the text, of at most `limit` bytes: the whole text, or else as much of it as
-- ends between two characters, at most three bytes short of `limit`.
capped_text_longest :
    (text : String) (limit : ℕ)
    → (str_len (capped_text text limit) ≤ limit)
      × ((rest : String) × (text ≡ capped_text text limit ++ rest))
      × ((capped_text text limit ≡ text)
          ⊎ ((limit < str_len text)
              × (is_char_boundary text (str_len (capped_text text limit)) ≡ true)
              × (limit < str_len (capped_text text limit) + 4)))
unfolding capped_text
capped_text_longest text limit = elim (Bool-cases (ltb limit (str_len text))) [
  | inl long ↦
      let b = last_boundary text limit in
      let exact = length-truncate text b (last_boundary_is text limit) in
      let (k, is, below, above) = near text limit (ground (arith, long)) in
      rw (long, exact)
        (
          last_boundary-le text limit,
          truncate_prefix text b,
          inr (
            ltb→lt limit (str_len text) long,
            last_boundary_is text limit,
            omega (arith, above, last_boundary_max text limit k is below),
          ),
        )
  | inr short ↦ rw short (ground (arith, short), ([], sym (append-nil text)), inl refl)
]
