-- ===== src/Secure/Channel/Bounds.antt =====
-- What a receiver holds, whatever records arrive.
use webmux.Base.{
  ℕ, ◌+◌, ◌≤◌, ◌<◌, ◌≡◌, refl, none, some, Option, Result, ok, err, List, [], ◌∷◌, ◌++◌, arith,
  length, length-append, length-drop, drop, take, nat_key,
}
use webmux.Base.Map.{get}
use webmux.Secure.Noise.{Transport}
use webmux.Secure.Bytes.{from_be_bytes}
use webmux.Secure.Channel.{
  Channel, Assembly, Error, new, start, extend, fragment, opened, decode_inner, settle, decode,
  max_message, max_assemblies, max_assembly_bytes, header_bytes,
}
use webmux.Secure.Channel.Pending.{
  held-le-totals, held, Rising, Rising-mono, totals, insert_new-Rising, insert_new-totals,
  insert_old, remove_old, get-IsPartial,
}

module _ (t : Transport) where
  -- `reserved` accounts for the sizes of the pending messages, which stay within the two limits.
  pub record Bounded (c : Channel t) : Type 0 where
    pub rising : Rising 0 c.last_started c.pending
    pub accounts : c.reserved ≡ totals c.pending
    pub few : length c.pending ≤ max_assemblies
    pub capped : c.reserved ≤ max_assembly_bytes

  pub new-Bounded : (s : t.State) → Bounded (new t s)
  unfolding new
  new-Bounded s = omega arith

  start-Bounded :
      (c : Channel t) (id total : ℕ) (content : List ℕ)
      → Bounded c
      → 0 < length content
      → length content ≤ total
      → total ≤ max_message
      → Bounded (start t c id total content).0
  unfolding start
  start-Bounded c id total content b pos le cap =
      let a : Assembly = record { total = total; content = content } in
      ground (
        arith,
        Rising-mono 0 c.last_started id c.pending,
        insert_new-Rising id a 0 c.last_started c.pending,
        insert_new-totals id a 0 c.last_started c.pending,
      )

  extend-Bounded :
      (c : Channel t) (id total offset : ℕ) (content : List ℕ) (o : Option Assembly)
      → get id c.pending ≡ o
      → Bounded c
      → 0 < length content
      → offset + length content ≤ total
      → Bounded (extend t c id total offset content o).0
  unfolding extend
  extend-Bounded c id total offset content none e b pos le = b
  extend-Bounded c id total offset content (some a) e b pos le =
      let a' : Assembly = record a { content = a.content ++ content } in
      ground (
        arith,
        length-append a.content content,
        get-IsPartial id a 0 c.last_started c.pending,
        insert_old id a a' 0 c.last_started c.pending,
        remove_old id a 0 c.last_started c.pending,
      )

  pub fragment-Bounded :
      (c : Channel t) (id total offset : ℕ) (content : List ℕ)
      → Bounded c
      → 0 < length content
      → Bounded (fragment t c id total offset content).0
  unfolding fragment
  fragment-Bounded c id total offset content b pos = ground (
    arith,
    start-Bounded c id total content,
    extend-Bounded c id total offset content (get id c.pending) refl,
  )

  opened-Bounded :
      (c : Channel t) (o : Option (List ℕ × t.State)) → Bounded c → Bounded (opened t c o).0
  unfolding opened
  opened-Bounded c none b = b
  opened-Bounded c (some (plain, state)) b = ground (
    arith,
    length-drop header_bytes plain,
    fragment-Bounded (record c { transport = state }) (from_be_bytes (take 8 plain))
        (from_be_bytes (take 4 (drop 8 plain))) (from_be_bytes (take 4 (drop 12 plain)))
        (drop header_bytes plain),
  )

  settle-Bounded :
      (r : Channel t × Result (List (List ℕ)) Error) → Bounded r.0 → Bounded (settle t r).0
  unfolding settle
  settle-Bounded (c, ok messages) b = b
  settle-Bounded (c, err e) b = record {
    rising = omega arith;
    accounts = refl;
    few = omega arith;
    capped = omega arith;
  }

  pub decode-Bounded : (c : Channel t) (sealed : List ℕ) → Bounded c → Bounded (decode t c sealed).0
  unfolding decode decode_inner
  decode-Bounded c sealed b = ground (
    arith,
    settle-Bounded (decode_inner t c sealed),
    opened-Bounded c (t.read_message c.transport sealed),
  )

  -- A receiver over a whole connection.
  pub decode_all : Channel t → List (List ℕ) → Channel t
  decode_all c [] = c
  decode_all c (sealed ∷ records) = decode_all (decode t c sealed).0 records

  pub decode_all-Bounded :
      (c : Channel t) (records : List (List ℕ)) → Bounded c → Bounded (decode_all c records)
  unfolding decode_all
  decode_all-Bounded c [] b = b
  decode_all-Bounded c (sealed ∷ records) b =
      decode_all-Bounded (decode t c sealed).0 records (decode-Bounded c sealed b)

  -- A receiver that starts out empty never holds more than 64 MiB of unfinished messages, in at most
  -- eight assemblies, and its account of the bytes reserved for them is exact, whatever records
  -- arrive and whatever the transport makes of them.
  pub decode_all_bounds :
      (s : t.State) (records : List (List ℕ))
      → let c = decode_all (new t s) records in
        (held c.pending ≤ max_assembly_bytes)
        × (length c.pending ≤ max_assemblies)
        × (c.reserved ≡ totals c.pending)
  decode_all_bounds s records =
      let c = decode_all (new t s) records in
      let b = decode_all-Bounded (new t s) records (new-Bounded s) in
      (
        omega (arith, b.accounts, b.capped, held-le-totals 0 c.last_started c.pending b.rising),
        b.few,
        b.accounts,
      )
