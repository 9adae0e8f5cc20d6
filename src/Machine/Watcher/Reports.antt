-- ===== src/Machine/Watcher/Reports.antt =====
-- Which deaths are reported, and how often.
use webmux.Base.{
  ap, ℕ, ◌+◌, String, ◌≡◌, Bool, true, false, not, ◌&&◌, ◌||◌, List, [], ◌∷◌, ◌++◌, any, arith,
  if◌then◌else◌, string_key,
}
use webmux.Base.Set.{contains, add, contains-add}
use webmux.Machine.Watcher.{poll, watch}

-- How often an id is in a list.
unfoldable pub count : String → List String → ℕ
count id [] = 0
count id (x ∷ xs) = (if string_key.eq x id then 1 else 0) + count id xs

count-append : (id : String) (xs ys : List String) → count id (xs ++ ys) ≡ count id xs + count id ys
unfolding count
count-append id [] ys = omega arith
count-append id (x ∷ xs) ys = ground (arith, count-append id xs ys)

abbrev pub once : Bool → ℕ
once true = 1
once false = 0

-- A terminal that is known in a round in which its session is not alive.
abbrev pub is_gone : (String → String) → String → List String × List String → Bool
is_gone session_name id (known, alive) = contains id known && not (contains (session_name id) alive)

-- A round reports an id exactly if it is gone and was not reported, and then once.
poll_exact :
    (session_name : String → String) (alive reported known : List String) (id : String)
    → let (reported', deaths) = poll session_name alive reported known in
      let gone = is_gone session_name id (known, alive) in
      (count id deaths ≡ once (gone && not (contains id reported)))
      × (contains id reported' ≡ (contains id reported || gone))
unfolding poll count contains
poll_exact session_name alive reported [] id = ground arith
poll_exact session_name alive reported (x ∷ known) id = ground (
  arith,
  poll_exact session_name alive reported known id,
  poll_exact session_name alive (add x reported) known id,
  contains-add x id reported,
  string_key.eq_iff x id,
  ap session_name {x = x} {y = id},
)

count-watch :
    (session_name : String → String) (reported : List String)
    (rounds : List (List String × List String)) (id : String)
    → count id (watch session_name reported rounds)
      ≡ once (not (contains id reported) && any (is_gone session_name id) rounds)
unfolding watch count
count-watch session_name reported [] id = ground arith
count-watch session_name reported ((known, alive) ∷ rounds) id =
    let (reported', deaths) = poll session_name alive reported known in
    ground (
      arith,
      poll_exact session_name alive reported known id,
      count-append id deaths (watch session_name reported' rounds),
      count-watch session_name reported' rounds id,
    )

-- Over all rounds a terminal is reported exactly once if its session was not alive in some round in
-- which the terminal was known, and never otherwise.
pub watch_exact :
    (session_name : String → String) (rounds : List (List String × List String)) (id : String)
    → count id (watch session_name [] rounds) ≡ once (any (is_gone session_name id) rounds)
unfolding contains
watch_exact session_name rounds id = count-watch session_name [] rounds id
