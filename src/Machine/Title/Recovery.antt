-- ===== src/Machine/Title/Recovery.antt =====
-- The scanner across chunks and malformed sequences.
use webmux.Base.{
  ℕ, zero, suc, ◌⊎◌, ◌+◌, ◌<◌, ◌≤◌, ◌≡◌, ◌≢◌, refl, sym, ap, inl, inr, ◌∙◌, false, not, ◌&&◌, List,
  [], ◌∷◌, ◌++◌, arith, length, take, length-append, filter, All, ltb, if◌then◌else◌,
}
use mathlib.Core.List.{append_assoc, append-nil}
use webmux.Machine.Title.{
  State, step, push, push_title, is_ascii_control, max_title_bytes, max_sequence_bytes,
}

-- Where a chunk is cut makes no difference.
pub push-append :
    (s : State) (xs ys : List ℕ)
    → push s (xs ++ ys) ≡ ((push (push s xs).0 ys).0, (push s xs).1 ++ (push (push s xs).0 ys).1)
unfolding push
push-append s [] ys = refl
push-append s (x ∷ xs) ys = let ih = push-append (step s x).0 xs ys in simp (ih, append_assoc)

-- The two bytes that open a sequence do so in every state, and complete no title.
push_opening : (s : State) → push s (0x1b ∷ b']' ∷ []) ≡ (State.command, [])
unfolding push step
push_opening State.ground = refl
push_opening s = ground arith

-- The bytes of a text that a title keeps.
abbrev pub printable : List ℕ → List ℕ
printable = filter (λ b. not (is_ascii_control b))

-- What a title keeps of one more byte of text, and of a whole text.
keep : List ℕ → ℕ → List ℕ
keep kept b =
    if not (is_ascii_control b) && ltb (length kept) max_title_bytes then kept ++ b ∷ [] else kept

keep_all : List ℕ → List ℕ → List ℕ
keep_all kept [] = kept
keep_all kept (b ∷ text) = keep_all (keep kept b) text

keep_all-take :
    (room : ℕ) (kept text : List ℕ)
    → length kept + room ≡ max_title_bytes
    → keep_all kept text ≡ kept ++ take room (printable text)
unfolding keep_all keep
keep_all-take zero kept [] h = sym (append-nil kept)
keep_all-take (suc room) kept [] h = sym (append-nil kept)
keep_all-take zero kept (b ∷ text) h = ground (arith, keep_all-take zero kept text h)
keep_all-take (suc room) kept (b ∷ text) h = ground (
  arith,
  keep_all-take (suc room) kept text h,
  keep_all-take room (kept ++ b ∷ []) text,
  length-append kept (b ∷ []),
  append_assoc kept (b ∷ []) (take room (printable text)),
)

step_text :
    (kept : List ℕ) (n b : ℕ)
    → b ≢ 0x07
    → b ≢ 0x1b
    → n + 1 < max_sequence_bytes
    → step (State.title kept n false) b ≡ (State.title (keep kept b) (n + 1) false, [])
unfolding step keep
step_text kept n b h7 h27 short = ground arith

push_text :
    (text kept : List ℕ) (n : ℕ)
    → All (λ b. (b ≢ 0x07) × (b ≢ 0x1b)) text
    → n + length text < max_sequence_bytes
    → push (State.title kept n false) text
      ≡ (State.title (keep_all kept text) (n + length text) false, [])
unfolding push keep_all
push_text [] kept n plain short = ap (λ (k : ℕ). (State.title kept k false, [])) (omega arith)
push_text (b ∷ text) kept n plain short =
    rw (step_text kept n b plain.0.0 plain.0.1 (omega arith)) (
      push_text text (keep kept b) (n + 1) plain.1 (omega arith)
      ∙ ap (λ (k : ℕ). (State.title (keep_all (keep kept b) text) k false, [])) (omega arith))

push_code :
    (code : ℕ) (rest : List ℕ)
    → (code ≡ b'0') ⊎ (code ≡ b'2')
    → push State.command (code ∷ b';' ∷ rest) ≡ push (State.title [] 0 false) rest
unfolding push step
push_code code rest (inl e) = rw e
push_code code rest (inr e) = rw e

-- BEL, or ESC and a backslash, ends a sequence.
abbrev pub IsTerminator : List ℕ → Type 0
IsTerminator ending = (ending ≡ 0x07 ∷ []) ⊎ (ending ≡ 0x1b ∷ 0x5c ∷ [])

length-ending : (ending : List ℕ) → IsTerminator ending → 1 ≤ length ending
length-ending ending (inl e) = omega (arith, ap length e)
length-ending ending (inr e) = omega (arith, ap length e)

push_ending :
    (kept : List ℕ) (n : ℕ) (ending : List ℕ)
    → IsTerminator ending
    → n + length ending ≤ max_sequence_bytes
    → push (State.title kept n false) ending ≡ (State.ground, push_title kept)
unfolding push step
push_ending kept n ending (inl e) short =
    rw e (ap (λ ts. (State.ground, ts)) (append-nil (push_title kept)))
push_ending kept n ending (inr e) short =
    let low : suc (n + 1) ≤ max_sequence_bytes = omega (arith, short, ap length e) in
    rw e (ground (arith, low, append-nil (push_title kept)))

-- In whatever state an earlier chunk or a malformed sequence left the scanner, a sequence
-- `ESC ] 0 ; text` or `ESC ] 2 ; text`, ended by BEL or by ESC and a backslash, is read for what it
-- says: what is reported is the title of the text's printable bytes, up to 128, or nothing where
-- nothing of them is left once they are decoded and cleaned, and the scanner is back on plain ground.
-- The text has neither BEL nor ESC among its bytes, and with the end has at most 4096 bytes.
pub push_recovers :
    (s : State) (code : ℕ) (text ending : List ℕ)
    → (code ≡ b'0') ⊎ (code ≡ b'2')
    → All (λ b. (b ≢ 0x07) × (b ≢ 0x1b)) text
    → IsTerminator ending
    → length text + length ending ≤ max_sequence_bytes
    → push s (0x1b ∷ b']' ∷ code ∷ b';' ∷ (text ++ ending))
      ≡ (State.ground, push_title (take max_title_bytes (printable text)))
push_recovers s code text ending which plain ends short =
    let room : 1 ≤ length ending = length-ending ending ends in
    rw (push-append s (0x1b ∷ b']' ∷ []) (code ∷ b';' ∷ (text ++ ending))) (
      rw (push_opening s, push_code code (text ++ ending) which)
        (rw (push-append (State.title [] 0 false) text ending) (
          rw
            (
              push_text text [] 0 plain (omega (arith, short, room)),
              push_ending (keep_all [] text) (0 + length text) ending ends (omega (arith, short)),
            )
            (ap (λ kept. (State.ground, push_title kept))
              (keep_all-take max_title_bytes [] text refl)))))
