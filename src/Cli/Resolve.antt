-- ===== src/Cli/Resolve.antt =====
-- crates/cli/src/resolve.rs: what a user means by an id, the beginning of one, or a name. Texts are
-- their bytes.
pub mod Meaning
use webmux.Base.{
  ℕ, ◌+◌, ◌-◌, ◌≡◌, Bool, true, false, not, ◌&&◌, ◌||◌, Option, none, some, List, [], ◌∷◌, ◌++◌,
  Result, ok, err, filter, map, ltb, leb, ◌==◌, if◌then◌else◌,
}

pub data CliError : Type 0 where
  usage config network protocol : List ℕ → CliError
  wait_timeout : CliError

abbrev pub eq_text : List ℕ → List ℕ → Bool
eq_text [] [] = true
eq_text [] (b ∷ t) = false
eq_text (a ∷ s) [] = false
eq_text (a ∷ s) (b ∷ t) = a == b && eq_text s t

-- `str::starts_with`.
abbrev pub starts_with : List ℕ → List ℕ → Bool
starts_with s [] = true
starts_with [] (b ∷ t) = false
starts_with (a ∷ s) (b ∷ t) = a == b && starts_with s t

-- `str::contains`.
abbrev pub contains_text : List ℕ → List ℕ → Bool
contains_text [] t = starts_with [] t
contains_text (a ∷ s) t = starts_with (a ∷ s) t || contains_text s t

-- `u8::to_ascii_lowercase`, and `str::eq_ignore_ascii_case`.
abbrev pub to_ascii_lowercase : ℕ → ℕ
to_ascii_lowercase b = if leb b'A' b && leb b b'Z' then b + 32 else b

abbrev pub eq_ignore_ascii_case : List ℕ → List ℕ → Bool
eq_ignore_ascii_case s t = eq_text (map to_ascii_lowercase s) (map to_ascii_lowercase t)

-- "no id matching '" and "no machine matching '".
abbrev pub no_id : List ℕ
no_id =
    b'n' ∷ b'o' ∷ b' ' ∷ b'i' ∷ b'd' ∷ b' ' ∷ b'm' ∷ b'a' ∷ b't' ∷ b'c' ∷ b'h' ∷ b'i' ∷ b'n' ∷ b'g'
    ∷ b' ' ∷ 0x27 ∷ []

abbrev pub no_machine : List ℕ
no_machine =
    b'n' ∷ b'o' ∷ b' ' ∷ b'm' ∷ b'a' ∷ b'c' ∷ b'h' ∷ b'i' ∷ b'n' ∷ b'e' ∷ b' ' ∷ b'm' ∷ b'a' ∷ b't'
    ∷ b'c' ∷ b'h' ∷ b'i' ∷ b'n' ∷ b'g' ∷ b' ' ∷ 0x27 ∷ []

-- "ambiguous", and the message around it.
abbrev pub ambiguous : List ℕ
ambiguous = b'a' ∷ b'm' ∷ b'b' ∷ b'i' ∷ b'g' ∷ b'u' ∷ b'o' ∷ b'u' ∷ b's' ∷ []

abbrev pub is_ambiguous : List ℕ → List ℕ → List ℕ
is_ambiguous query candidates =
    (0x27 ∷ query)
    ++ ((0x27 ∷ b' ' ∷ b'i' ∷ b's' ∷ b' ' ∷ ambiguous)
        ++ ((b' ' ∷ 0xe2 ∷ 0x80 ∷ 0x94 ∷ b' ' ∷ b'c' ∷ b'a' ∷ b'n' ∷ b'd' ∷ b'i' ∷ b'd' ∷ b'a'
              ∷ b't' ∷ b'e' ∷ b's' ∷ b':' ∷ 0x0a ∷ [])
            ++ candidates))

-- `collect().join("\n")`.
abbrev pub join_lines : List (List ℕ) → List ℕ
join_lines [] = []
join_lines (l ∷ []) = l
join_lines (l ∷ m ∷ ls) = l ++ 0x0a ∷ join_lines (m ∷ ls)

module _ {ℓ} {T : Type ℓ} where
  -- `iter().find`.
  pub find : (T → Bool) → List T → Option T
  find p [] = none
  find p (x ∷ xs) = if p x then some x else find p xs

  -- The `match` on the number of matches.
  pub single : List ℕ → List ℕ → (T → List ℕ) → List T → Result T CliError
  single query nothing line [] = err (usage (nothing ++ (query ++ 0x27 ∷ [])))
  single query nothing line (x ∷ []) = ok x
  single query nothing line (x ∷ y ∷ xs) =
      err (usage (is_ambiguous query (join_lines (map line (x ∷ y ∷ xs)))))

  pub matched : List ℕ → List T → (T → List ℕ) → Option T → Result T CliError
  unfolding single
  matched query items id_of (some exact) = ok exact
  matched query items id_of none =
      single query no_id (λ x. b' ' ∷ b' ' ∷ id_of x)
        (filter (λ x. starts_with (id_of x) query) items)

  unfoldable pub resolve_prefix : List ℕ → List T → (T → List ℕ) → Result T CliError
  unfolding matched find
  resolve_prefix query items id_of =
      matched query items id_of (find (λ x. eq_text (id_of x) query) items)

-- `MachineInfo` of crates/protocol/src/lib.rs.
pub record MachineInfo : Type 0 where
  pub id : List ℕ
  pub name : List ℕ
  pub os : List ℕ
  pub home_dir : List ℕ
  pub production : Bool

pub by_name : List ℕ → List MachineInfo → Result MachineInfo CliError
unfolding single
by_name query machines =
    single query no_machine (λ m. b' ' ∷ b' ' ∷ (m.id ++ b' ' ∷ b' ' ∷ m.name))
      (filter (λ m. eq_ignore_ascii_case m.name query) machines)

pub or_by_name :
    List ℕ → List MachineInfo → Result MachineInfo CliError → Result MachineInfo CliError
unfolding by_name
or_by_name query machines (ok machine) = ok machine
or_by_name query machines (err (usage message)) =
    if contains_text message ambiguous then err (usage message) else by_name query machines
or_by_name query machines (err e) = by_name query machines

unfoldable pub resolve_machine : List ℕ → List MachineInfo → Result MachineInfo CliError
unfolding or_by_name
resolve_machine query machines =
    or_by_name query machines (resolve_prefix query machines (λ m. m.id))
