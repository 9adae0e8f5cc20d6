-- ===== src/Secure/Tests.antt =====
-- A transport that meets the laws of Secure/Noise.antt, and the theorems of crates/secure on it.
use webmux.Base.{
  length-take, ℕ, suc, ◌+◌, ◌-◌, ◌*◌, ◌^◌, ◌≤◌, ◌<◌, ◌≡◌, ◌≢◌, refl, ap, Bool, true, ◌&&◌, none,
  some, Option, err, List, [], ◌∷◌, ◌++◌, arith, length, length-append, length-replicate, take,
  drop, replicate, take-append_length, drop-append_length, leb, ltb, ◌==◌, if◌then◌else◌,
}
use webmux.Secure.Noise.{Transport, Laws}
use webmux.Secure.Channel.{
  encode_next, fragment_bytes, decode_inner, OutgoingMessage, max_message, new, encode, decode,
  closed, invalid_message, max_assembly_bytes, max_assemblies,
}
use webmux.Secure.Channel.Bounds.{new-Bounded, decode_all, decode_all_bounds}
use webmux.Secure.Channel.Pending.{held, totals}
use webmux.Secure.Channel.Hop.{Synced}
use webmux.Secure.Channel.RoundTrip.{Delivery, encode-decode}
use webmux.Secure.Channel.Failure.{decode_error_poisons, encode_total}

-- The tag is the number of the record, sixteen times; a state is the number of the next record.
abbrev pub tag : ℕ → List ℕ
tag n = replicate 16 n

pub tagged : ℕ → List ℕ → Bool
tagged n [] = true
tagged n (b ∷ bs) = b == n && tagged n bs

abbrev pub seal : ℕ → List ℕ → Option (List ℕ × ℕ)
seal n p =
    if leb (length p) (65535 - 16) && ltb n (2 ^ 64 - 1) then some (p ++ tag n, suc n) else none

abbrev pub unseal : ℕ → List ℕ → Option (List ℕ × ℕ)
unseal n c =
    let body = length c - 16 in
    if leb 16 (length c) && tagged n (drop body c) then some (take body c, suc n) else none

abbrev pub counted : Transport
counted = record { State = ℕ; write_message = seal; read_message = unseal }

tagged-tag : (n : ℕ) → tagged n (tag n) ≡ true
unfolding tagged
tagged-tag n = ground arith

length-take_body : (c : List ℕ) → 16 ≤ length c → length c ≡ length (take (length c - 16) c) + 16
length-take_body c h = omega (arith, length-take (length c - 16) c)

unseal_sealed : (n : ℕ) (p : List ℕ) → unseal n (p ++ tag n) ≡ some (p, suc n)
unseal_sealed n p =
    let len : length (p ++ tag n) - 16 ≡ length p = omega (arith, length-append p (tag n)) in
    let front = take-append_length p (tag n) (length (p ++ tag n) - 16) len in
    let back = drop-append_length p (tag n) (length (p ++ tag n) - 16) len in
    ground (arith, length-append p (tag n), front, ap (tagged n) back, tagged-tag n)

seal-eq_some :
    (n : ℕ) (p c : List ℕ) (s' : ℕ) → seal n p ≡ some (c, s') → (c ≡ p ++ tag n) × (s' ≡ suc n)
seal-eq_some n p c s' h = ground arith

pub counted_laws : Laws counted
counted_laws = record {
  Paired = λ s r. s ≡ r;
  nonces_left = λ n. 2 ^ 64 - 1 - n;
  writes = λ s p fits n. (p ++ tag s, suc s, ground arith, omega arith);
  length-write =
      λ s p c s' e. omega (arith, ap length (seal-eq_some s p c s' e).0, length-append p (tag s));
  length-read = λ r c p r' e. ground (arith, length-take_body c);
  reads = λ s r p c s' q e. (
    suc s,
    rw (← q, (seal-eq_some s p c s' e).0) (unseal_sealed s p),
    (seal-eq_some s p c s' e).1,
  );
}

pub new-Synced : Synced counted counted_laws (new counted 0) (new counted 0)
unfolding counted_laws new
new-Synced = record {
  paired = refl;
  sender_live = refl;
  receiver_live = refl;
  fresh = omega arith;
  counter = omega arith;
  bounded = new-Bounded counted 0;
}

pub many_nonces : 1_000 ≤ counted_laws.nonces_left (new counted 0).transport
unfolding counted_laws new
many_nonces = omega arith

abbrev image : List ℕ
image = replicate 20_000 7

-- The premises of `encode-decode`, for a message of two fragments.
length-image :
    (content : List ℕ)
    → length content ≡ 20_000
    → (0 < length content)
      × (length content ≤ max_message)
      × (length content ≤ max_assembly_bytes)
      × (length content ≤ (2 ^ 64 - 1) * fragment_bytes)
length-image content e = omega arith

encode-decode_example :
    Delivery counted counted_laws
      (new counted 0)
      (new counted 0)
      image
      (encode counted (new counted 0) image)
unfolding counted_laws new
encode-decode_example =
    let fits = length-image image (length-replicate {A = ℕ} 20_000 7) in
    encode-decode counted counted_laws (new counted 0) (new counted 0) image new-Synced fits.0
      fits.1 (omega arith) (λ _. (omega arith, fits.2)) fits.3

decode_all_bounds_example :
    let c = decode_all counted (new counted 0) ((1 ∷ 2 ∷ []) ∷ []) in
    (held c.pending ≤ max_assembly_bytes)
    × (length c.pending ≤ max_assemblies)
    × (c.reserved ≡ totals c.pending)
decode_all_bounds_example = decode_all_bounds counted 0 ((1 ∷ 2 ∷ []) ∷ [])

-- A record of two bytes is too short.
short_record : (decode counted (new counted 0) (1 ∷ 2 ∷ [])).1 ≡ err invalid_message
unfolding decode decode_inner new
short_record = refl

decode_error_poisons_example :
    let c' = (decode counted (new counted 0) (1 ∷ 2 ∷ [])).0 in
    (c'.pending ≡ [])
    × (c'.reserved ≡ 0)
    × ((next : List ℕ) → decode counted c' next ≡ (c', err closed))
    × ((m : OutgoingMessage) → encode_next counted c' m ≡ (c', m, err closed))
decode_error_poisons_example =
    decode_error_poisons counted (new counted 0) (1 ∷ 2 ∷ []) invalid_message (unfold new in refl)
      short_record

encode_total_example : encode counted (new counted 0) (1 ∷ 2 ∷ []) ≢ none
encode_total_example = encode_total counted (new counted 0) (1 ∷ 2 ∷ [])
