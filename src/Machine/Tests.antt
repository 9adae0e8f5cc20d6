-- ===== src/Machine/Tests.antt =====
-- crates/machine at concrete inputs: the theorems, and runs that the program's own tests make.
use webmux.Base.{String, any, ℕ, ◌≡◌, refl, inr, false, List, [], ◌∷◌, ◌++◌, arith, take, All}
use webmux.Base.Utf8.{from_utf8_lossy, is_control, len_utf8}
use webmux.Machine.Title.{
  State, push, push_title, is_ascii_control, step, sanitize_title, max_title_bytes,
}
use webmux.Machine.Title.Bounds.{IsBounded, IsTitle, push_bounds}
use webmux.Machine.Title.Recovery.{printable, push_recovers}
use webmux.Machine.Watcher.{watch}
use webmux.Machine.Watcher.Reports.{count, once, is_gone, watch_exact}

-- `my`, in bytes.
abbrev my : List ℕ
my = b'm' ∷ b'y' ∷ []

-- An unterminated sequence, then a title.
abbrev unterminated : State
unterminated = State.ignore 17 false

push_recovers_example :
    push unterminated (0x1b ∷ b']' ∷ b'2' ∷ b';' ∷ (my ++ 0x1b ∷ 0x5c ∷ []))
    ≡ (State.ground, push_title (take max_title_bytes (printable my)))
push_recovers_example =
    push_recovers unterminated b'2' my (0x1b ∷ 0x5c ∷ []) (inr refl) (omega arith) (inr refl)
      (omega arith)

scans_title :
    push State.ground (0x1b ∷ b']' ∷ b'2' ∷ b';' ∷ (my ++ 0x07 ∷ [])) ≡ (State.ground, my ∷ [])
unfolding push step push_title sanitize_title from_utf8_lossy is_ascii_control is_control len_utf8
scans_title = refl

-- An empty title is not reported.
scans_empty_title : push State.ground (0x1b ∷ b']' ∷ b'0' ∷ b';' ∷ 0x07 ∷ []) ≡ (State.ground, [])
unfolding push step push_title sanitize_title from_utf8_lossy is_ascii_control is_control len_utf8
scans_empty_title = refl

-- `é`, an encoded surrogate and a cut-off character.
lossy :
    from_utf8_lossy (0xc3 ∷ 0xa9 ∷ 0xed ∷ 0xa0 ∷ 0xe4 ∷ 0xb8 ∷ [])
    ≡ 0xe9 ∷ 0xfffd ∷ 0xfffd ∷ 0xfffd ∷ []
unfolding from_utf8_lossy
lossy = refl

push_bounds_example :
    IsBounded (push State.ground (0x1b ∷ b']' ∷ b'2' ∷ b';' ∷ my)).0
    × All IsTitle (push State.ground (0x1b ∷ b']' ∷ b'2' ∷ b';' ∷ my)).1
push_bounds_example = push_bounds State.ground (0x1b ∷ b']' ∷ b'2' ∷ b';' ∷ my) tt

-- The session of `a` is gone in two rounds, that of `b` in none.
abbrev rounds : List (List String × List String)
rounds = ("a" ∷ "b" ∷ [], "b" ∷ []) ∷ ("a" ∷ "b" ∷ [], "b" ∷ []) ∷ []

watch_exact_example :
    count "a" (watch (λ id. id) [] rounds) ≡ once (any (is_gone (λ id. id) "a") rounds)
watch_exact_example = watch_exact (λ id. id) rounds "a"
