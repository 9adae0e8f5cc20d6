-- ===== src/Secure/Writer/Order.antt =====
-- The messages of one key leave in the order in which they came.
use webmux.Base.{
  ◌⊎◌, subst, subst, String, ◌≡◌, refl, ap, true, false, not, Option, none, some, List, [], ◌∷◌,
  ◌++◌, any, filter, arith, ltb, if◌then◌else◌, string_key, Bool-cases, inl, inr,
}
use webmux.Secure.Writer.{
  Queued, Writer, same_key, may_pass, small, pop_front, otherwise, passing, choose,
}

-- The messages of a key, in order.
abbrev pub of_key : String → List Queued → List Queued
of_key k = filter (λ q. string_key.eq q.key k)

abbrev pub started : Option Queued → List Queued
started none = []
started (some b) = b ∷ []

-- What is not sent yet: the bulk message under way, and those that wait.
abbrev pub pending : Writer → List Queued
pending w = started w.bulk ++ w.waiting

-- A message that is taken, before others of a key.
abbrev pub then_rest : String → Option Queued → List Queued → List Queued
then_rest k none rest = rest
then_rest k (some x) rest = if string_key.eq x.key k then x ∷ rest else rest

pub of_key-append :
    (k : String) (xs ys : List Queued) → of_key k (xs ++ ys) ≡ of_key k xs ++ of_key k ys
of_key-append k [] ys = refl
of_key-append k (x ∷ xs) ys = ground (arith, of_key-append k xs ys)

of_key_none :
    (k : String) (next : Queued) (xs : List Queued)
    → any (λ e. same_key e next) xs ≡ false
    → string_key.eq next.key k ≡ true
    → of_key k xs ≡ []
of_key_none k next [] e q = refl
of_key_none k next (x ∷ xs) e q = ground (
  arith,
  of_key_none k next xs,
  string_key.eq_iff x.key next.key,
  string_key.eq_iff x.key k,
  string_key.eq_iff next.key k,
)

append_assoc :
    (xs : List Queued) (y : Queued) (ys : List Queued) → (xs ++ y ∷ []) ++ ys ≡ xs ++ y ∷ ys
append_assoc [] y ys = refl
append_assoc (x ∷ xs) y ys = ap (◌∷◌ x) (append_assoc xs y ys)

-- A message that passes others passes none of its key.
Passed : String → Option Queued → List Queued → Option (Queued × List Queued) → Type 0
Passed k bulk xs none = Unit
Passed k bulk xs (some (x, rest)) =
    (of_key k xs ≡ then_rest k (some x) (of_key k rest))
    × ((of_key k (started bulk) ≡ []) ⊎ (string_key.eq x.key k ≡ false))

not_of_bulk :
    (k : String) (bulk : Option Queued) (next : Queued)
    → (elim bulk [ none ↦ true | some b ↦ not (same_key b next) ]) ≡ true
    → (of_key k (started bulk) ≡ []) ⊎ (string_key.eq next.key k ≡ false)
not_of_bulk k none next e = inl refl
not_of_bulk k (some b) next e = ground (
  arith,
  string_key.eq_iff b.key next.key,
  string_key.eq_iff b.key k,
  string_key.eq_iff next.key k,
)

small-Passed :
    (k : String) (bulk : Option Queued) (earlier xs : List Queued)
    → Passed k bulk (earlier ++ xs) (small bulk earlier xs)
unfolding small Passed
small-Passed k bulk earlier [] = tt
small-Passed k bulk earlier (x ∷ xs) = elim (Bool-cases (may_pass bulk earlier x)) [
  | inl may ↦ rw may (first may)
  | inr waits ↦ rw waits (
      subst (λ l. Passed k bulk l (small bulk (earlier ++ x ∷ []) xs)) (append_assoc earlier x xs)
        (small-Passed k bulk (earlier ++ x ∷ []) xs))
]
  where
    first :
        may_pass bulk earlier x ≡ true → Passed k bulk (earlier ++ x ∷ xs) (some (x, earlier ++ xs))
    first may = (
      ground (
        arith,
        may,
        of_key-append k earlier (x ∷ xs),
        of_key-append k earlier xs,
        of_key_none k x earlier,
      ),
      not_of_bulk k bulk x (ground (arith, may)),
    )

otherwise-order :
    (k : String) (w : Writer)
    → let (w', x) = otherwise w w.bulk in
      of_key k (pending w) ≡ then_rest k x (of_key k (pending w'))
unfolding otherwise pop_front
otherwise-order k w = bulk_first w.bulk w.waiting refl
  where
    bulk_first :
        (b : Option Queued) (l : List Queued)
        → w.waiting ≡ l
        → let (w', x) = otherwise (record w { bulk = b; waiting = l }) b in
          of_key k (started b ++ l) ≡ then_rest k x (of_key k (pending w'))
    bulk_first (some b) l e = refl
    bulk_first none [] e = refl
    bulk_first none (x ∷ l) e = refl

passing-order :
    (k : String) (w : Writer) (o : Option (Queued × List Queued))
    → Passed k w.bulk w.waiting o
    → let (w', x) = passing w o in of_key k (pending w) ≡ then_rest k x (of_key k (pending w'))
unfolding passing Passed
passing-order k w none p = otherwise-order k w
passing-order k w (some (x, rest)) (p, q) = elim (Bool-cases (ltb w.urgent_streak 8)) [
  | inl room ↦ rw room (
      ground (
        arith,
        p,
        q,
        of_key-append k (started w.bulk) w.waiting,
        of_key-append k (started w.bulk) rest,
      ))
  | inr full ↦ rw full (otherwise-order k w)
]

-- Without a control message, the message that is chosen is the first of its key that is not sent
-- yet, and of every key the others stay in order; where none is chosen there is none to send.
pub choose-order :
    (k : String) (w : Writer)
    → let (w', x) = choose w none in of_key k (pending w) ≡ then_rest k x (of_key k (pending w'))
unfolding choose
choose-order k w =
    passing-order k w (small w.bulk [] w.waiting) (small-Passed k w.bulk [] w.waiting)
