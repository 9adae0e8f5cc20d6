-- ===== src/Secure/Noise.antt =====
-- The `snow` crate's `TransportState`, which the channel of crates/secure/src/lib.rs calls and does
-- not implement: a parameter of the model, with what snow documents of it as laws.
use webmux.Base.{ℕ, ◌+◌, ◌-◌, ◌≤◌, ◌<◌, ◌≡◌, Option, some, List, length}

-- `write_message` seals one record and `read_message` opens one; `none` is a `snow::Error`.
pub record Transport : Type 1 where
  pub State : Type 0
  pub write_message : State → List ℕ → Option (List ℕ × State)
  pub read_message : State → List ℕ → Option (List ℕ × State)

abbrev pub tag_bytes : ℕ
tag_bytes = 16

abbrev pub max_noise_payload : ℕ
max_noise_payload = 65535 - 16

-- A write needs a payload that leaves room for the tag in a Noise message, and a nonce that is
-- left. It adds the tag of 16 bytes. The peer opens what was sealed, in the order of sealing.
pub record Laws (t : Transport) : Type 1 where
  pub Paired : t.State → t.State → Type 0
  pub nonces_left : t.State → ℕ
  pub writes :
      (s : t.State) (p : List ℕ)
      → length p ≤ max_noise_payload
      → 0 < nonces_left s
      → (c : List ℕ) × (s' : t.State) × (t.write_message s p ≡ some (c, s'))
        × (nonces_left s ≡ nonces_left s' + 1)
  pub length-write :
      (s : t.State) (p : List ℕ) (c : List ℕ) (s' : t.State)
      → t.write_message s p ≡ some (c, s')
      → length c ≡ length p + tag_bytes
  pub length-read :
      (r : t.State) (c : List ℕ) (p : List ℕ) (r' : t.State)
      → t.read_message r c ≡ some (p, r')
      → length c ≡ length p + tag_bytes
  pub reads :
      (s r : t.State) (p : List ℕ) (c : List ℕ) (s' : t.State)
      → Paired s r
      → t.write_message s p ≡ some (c, s')
      → (r' : t.State) × (t.read_message r c ≡ some (p, r')) × Paired s' r'
