-- ===== src/Secure/Channel/Pending.antt =====
-- The unfinished messages of a receiver. Their ids rise along the list, so each has one entry.
use webmux.Base.{ℕ, ◌+◌, ◌≤◌, ◌<◌, ◌≡◌, refl, none, some, List, [], ◌∷◌, arith, length, nat_key}
use webmux.Base.Map.{get, insert, remove}
use webmux.Secure.Channel.{Assembly, max_message}

-- A message under way has some of its bytes, and not all; it is no larger than a message may be.
pub record IsPartial (a : Assembly) : Type 0 where
  pub started : 0 < length a.content
  pub unfinished : length a.content < a.total
  pub within : a.total ≤ max_message

-- The ids rise from `lo` on, up to `hi`.
abbrev pub Rising : ℕ → ℕ → List (ℕ × Assembly) → Type 0
Rising lo hi [] = lo ≤ hi
Rising lo hi ((id, a) ∷ m) = (lo < id) × IsPartial a × Rising id hi m

abbrev pub totals : List (ℕ × Assembly) → ℕ
totals [] = 0
totals ((id, a) ∷ m) = a.total + totals m

-- The bytes that the list holds.
abbrev pub held : List (ℕ × Assembly) → ℕ
held [] = 0
held ((id, a) ∷ m) = length a.content + held m

pub Rising-le : (lo hi : ℕ) (m : List (ℕ × Assembly)) → Rising lo hi m → lo ≤ hi
Rising-le lo hi [] h = h
Rising-le lo hi ((id, a) ∷ m) h = omega (arith, Rising-le id hi m h.2)

pub Rising-mono :
    (lo hi hi' : ℕ) (m : List (ℕ × Assembly)) → hi ≤ hi' → Rising lo hi m → Rising lo hi' m
Rising-mono lo hi hi' [] le h = omega arith
Rising-mono lo hi hi' ((id, a) ∷ m) le h = (h.0, h.1, Rising-mono id hi hi' m le h.2)

pub Rising-lower :
    (lo lo' hi : ℕ) (m : List (ℕ × Assembly)) → lo' ≤ lo → Rising lo hi m → Rising lo' hi m
Rising-lower lo lo' hi [] le h = omega arith
Rising-lower lo lo' hi ((id, a) ∷ m) le h = (omega arith, h.1, h.2)

pub held-le-totals : (lo hi : ℕ) (m : List (ℕ × Assembly)) → Rising lo hi m → held m ≤ totals m
held-le-totals lo hi [] h = omega arith
held-le-totals lo hi ((id, a) ∷ m) h = omega (arith, h.1.unfinished, held-le-totals id hi m h.2)

-- No entry lies at or below the lower end, nor above the upper one.
pub get_outside :
    (lo hi id : ℕ) (m : List (ℕ × Assembly)) → Rising lo hi m → (hi < id) → get id m ≡ none
unfolding get
get_outside lo hi id [] h out = refl
get_outside lo hi id ((j, a) ∷ m) h out =
    ground (arith, Rising-le j hi m h.2, get_outside j hi id m h.2 out)

get_below : (lo hi id : ℕ) (m : List (ℕ × Assembly)) → Rising lo hi m → id ≤ lo → get id m ≡ none
unfolding get
get_below lo hi id [] h le = refl
get_below lo hi id ((j, a) ∷ m) h le = ground (arith, get_below j hi id m h.2)

remove_below : (lo hi id : ℕ) (m : List (ℕ × Assembly)) → Rising lo hi m → id ≤ lo → remove id m ≡ m
unfolding remove
remove_below lo hi id [] h le = refl
remove_below lo hi id ((j, a) ∷ m) h le = ground (arith, remove_below j hi id m h.2)

-- A new id above all others goes to the end.
pub insert_new-Rising :
    (id : ℕ) (a : Assembly) (lo hi : ℕ) (m : List (ℕ × Assembly))
    → IsPartial a
    → Rising lo hi m
    → hi < id
    → Rising lo id (insert id a m)
unfolding insert
insert_new-Rising id a lo hi [] p h lt = (omega arith, p, omega arith)
insert_new-Rising id a lo hi ((j, b) ∷ m) p h lt =
    ground (arith, Rising-le j hi m h.2, insert_new-Rising id a j hi m p h.2 lt)

pub insert_new-totals :
    (id : ℕ) (a : Assembly) (lo hi : ℕ) (m : List (ℕ × Assembly))
    → Rising lo hi m
    → hi < id
    → (totals (insert id a m) ≡ totals m + a.total) × (length (insert id a m) ≡ length m + 1)
unfolding insert
insert_new-totals id a lo hi [] h lt = (omega arith, omega arith)
insert_new-totals id a lo hi ((j, b) ∷ m) h lt =
    ground (arith, Rising-le j hi m h.2, insert_new-totals id a j hi m h.2 lt)

-- An entry that is there is replaced by one of the same size.
pub insert_old :
    (id : ℕ) (a b : Assembly) (lo hi : ℕ) (m : List (ℕ × Assembly))
    → IsPartial b
    → b.total ≡ a.total
    → Rising lo hi m
    → get id m ≡ some a
    → Rising lo hi (insert id b m)
      × (totals (insert id b m) ≡ totals m)
      × (length (insert id b m) ≡ length m)
unfolding insert get
insert_old id a b lo hi [] p same h e = cc
insert_old id a b lo hi ((j, c) ∷ m) p same h e =
    ground (arith, insert_old id a b j hi m p same h.2)

pub remove_old :
    (id : ℕ) (a : Assembly) (lo hi : ℕ) (m : List (ℕ × Assembly))
    → Rising lo hi m
    → get id m ≡ some a
    → Rising lo hi (remove id m)
      × (totals (remove id m) + a.total ≡ totals m)
      × (length (remove id m) + 1 ≡ length m)
unfolding remove get
remove_old id a lo hi [] h e = cc
remove_old id a lo hi ((j, c) ∷ m) h e = ground (
  arith,
  remove_old id a j hi m h.2,
  remove_below j hi id m h.2,
  Rising-lower j lo hi m,
  Rising-lower j lo hi (remove id m),
)

pub get-IsPartial :
    (id : ℕ) (a : Assembly) (lo hi : ℕ) (m : List (ℕ × Assembly))
    → Rising lo hi m
    → get id m ≡ some a
    → IsPartial a × (id ≤ hi)
unfolding get
get-IsPartial id a lo hi [] h e = cc
get-IsPartial id a lo hi ((j, c) ∷ m) h e =
    ground (arith, get-IsPartial id a j hi m h.2, Rising-le j hi m h.2)
